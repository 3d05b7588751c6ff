-- ===== src/Space/Members.antt =====
-- Reading the members of a task in core/src/kernel/task.c: user variables, the stored error of a
-- file, the code of the platform's last error and the message of ABORT".
use e.Base.{ℕ, ◌*◌, Option, List, [], ◌∷◌, get_elem?}
use e.Errors.{e_ok}
use e.Task.{Task, FileException}
use e.Mem.Layout.{cell_sz}

-- The members of the struct that can be read as user variables, in their order: those in front of
-- the dictionary have the size of a cell each.
unfoldable pub user_table : Task → List ℕ
user_table task =
    task.here
    ∷ task.pad * cell_sz
    ∷ task.s0 * cell_sz
    ∷ task.sp * cell_sz
    ∷ task.tib * cell_sz
    ∷ task.r0 * cell_sz
    ∷ task.rp * cell_sz
    ∷ task.ip * cell_sz
    ∷ task.base_ptr
    ∷ task.in_ptr
    ∷ task.state_ptr
    ∷ task.io_src.buffer
    ∷ task.io_src.sid
    ∷ task.io_src.to_in
    ∷ task.io_src.length
    ∷ task.io_src.sz
    ∷ task.compile.state
    ∷ task.compile.sus_state
    ∷ task.compile.s0 * cell_sz
    ∷ task.compile.here0
    ∷ task.compile.xt
    ∷ task.pno.end
    ∷ task.pno.offset
    ∷ task.tr0 * cell_sz
    ∷ task.sl * cell_sz
    ∷ task.rl * cell_sz
    ∷ task.task_sz
    ∷ task.tib_sz
    ∷ task.base
    ∷ []

-- e4__task_uservar; `none` is an offset beyond that table.
unfoldable pub task_uservar : Task → ℕ → Option ℕ
task_uservar task offset = get_elem? (user_table task) offset

-- What e4__task_fex and e4__task_ior return, and the task after them.
pub record Taken (A : Type 0) : Type 0 where
  pub res : A
  pub task : Task

-- e4__task_fex: the stored error, whose code is the result in C, and the task in which it is
-- cleared.
unfoldable pub task_fex : Task → Taken FileException
task_fex task = record {
  res = task.fex;
  task = record task { fex = record task.fex { ex = e_ok } };
}

-- e4__task_ior
unfoldable pub task_ior : Task → ℕ → Taken ℕ
task_ior task ior = record { res = task.ior; task = record task { ior = ior } }

-- e4__task_last_abortq: the address of the message, which it writes through its pointer, and the
-- length.
pub record Message : Type 0 where
  pub msg : ℕ
  pub len : ℕ

unfoldable pub task_last_abortq : Task → Message
task_last_abortq task = record { msg = task.abortq_msg; len = task.abortq_msg_len }

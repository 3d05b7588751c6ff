-- ===== src/Compile.antt =====
-- core/src/kernel/compile.c: the compilation state, and the cells that are compiled at `here`,
-- which its callers keep aligned.
pub mod States
pub mod Finish
pub mod Copied
pub mod Strings
use e.Base.{ℕ, ◌+◌, ◌-◌, ◌/◌, Bool, true, false, not, ◌==◌, if◌then◌else◌, List, [], ◌∷◌, bit_and}
use e.Errors.{e_ok, e_nestedcompile, e_csmismatch, e_stkoverflow}
use e.Task.{Task, CompileState, store}
use e.Mem.Layout.{aligned, cell_sz}
use e.Stack.{avail, push}
use e.Dict.Entry.{Header}
use e.Dict.{Returned, dict_forget, f_compiling}

-- The compilation states; 0 is none.
abbrev pub comp_colon : ℕ
comp_colon = 1

abbrev pub comp_does : ℕ
comp_does = 2

abbrev pub comp_noname : ℕ
comp_noname = 3

abbrev pub comp_anonymous : ℕ
comp_anonymous = 4

-- The addresses of the tokens and the code that compiled words refer to: entries of the table
-- e4__BUILTIN_XT and functions of core/src/kernel/execute.c, which the linker places.
pub record Addresses : Type 0 where
  pub b_exit : ℕ
  pub b_sentinel : ℕ
  pub b_lit_cell : ℕ
  pub doesthunk : ℕ
  pub threaded : ℕ

abbrev pub set_state : ℕ → Task → Task
set_state s task = record task { compile = record task.compile { state = s } }

-- e4__compile_cell
unfoldable pub compile_cell : Task → ℕ → Task
compile_cell task cell = record task {
  mem = store task.mem (task.here / cell_sz) cell;
  here = task.here + cell_sz;
}

-- e4__compile_literal
unfoldable pub compile_literal : Addresses → Task → ℕ → Task
compile_literal addresses task lit = compile_cell (compile_cell task addresses.b_lit_cell) lit

-- e4__compile_resume
unfoldable pub compile_resume : Task → Returned
compile_resume task =
    if not (task.compile.state == 0)
    then record { res = e_nestedcompile; task = task }
    else record {
      res = e_ok;
      task = record task {
        compile = record task.compile {
          state =
              if not (task.compile.sus_state == 0) then task.compile.sus_state else comp_anonymous;
          sus_state = 0;
        };
      };
    }

-- e4__compile_suspend
unfoldable pub compile_suspend : Task → Task
compile_suspend task = record task {
  compile = record task.compile { sus_state = task.compile.state; state = 0 };
}

-- e4__compile_start
unfoldable pub compile_start : Task → ℕ → ℕ → Returned
compile_start task xt mode =
    if not (task.compile.state == 0)
    then record { res = e_nestedcompile; task = task }
    else record {
      res = e_ok;
      task = record task {
        compile = record task.compile { state = mode; s0 = task.sp; here0 = task.here; xt = xt };
      };
    }

-- e4__compile_cancel after the call of e4__compile_resume.
unfoldable pub cancel_resumed : Task → Task
cancel_resumed task =
    let state = task.compile.state in
    let forgotten : Task = elim task.dict [ [] ↦ task | h ∷ _ ↦ (dict_forget task h.name).task ] in
    if state == comp_anonymous
    then set_state 0 task
    else if state == 0
    then task
    else if state == comp_colon
    then set_state 0 forgotten
    else if state == comp_noname
    then set_state 0 (record task { here = task.compile.xt })
    else set_state 0 (record task { here = task.compile.here0 })

-- e4__compile_cancel
unfoldable pub compile_cancel : Task → Task
compile_cancel task = cancel_resumed (compile_resume task).task

-- `task->dict->flags &= ~e4__F_COMPILING`
unfoldable pub mark_done : List Header → List Header
mark_done [] = []
mark_done (h ∷ dict) = record h { flags = bit_and h.flags (255 - f_compiling) } ∷ dict

-- Setting the code of the token that is compiled, by the state; the result is the error that
-- e4__compile_finish returns.
unfoldable pub finish_token : Addresses → Task → Returned
finish_token addresses task =
    let state = task.compile.state in
    let xt = task.compile.xt / cell_sz in
    let threaded = λ (t : Task). record t { mem = store t.mem xt addresses.threaded } in
    if state == comp_does
    then record {
      res = e_ok;
      task = record task {
        mem = store (store task.mem xt addresses.doesthunk) (xt + 1) task.compile.here0;
      };
    }
    else if state == comp_noname
    then (if avail task == 0
        then record { res = e_stkoverflow; task = threaded task }
        else record { res = e_ok; task = threaded (push task task.compile.xt) })
    else if state == comp_colon
    then record { res = e_ok; task = threaded (record task { dict = mark_done task.dict }) }
    else record { res = e_ok; task = threaded task }

-- e4__compile_finish after the call of e4__compile_resume.
unfoldable pub finish_resumed : Addresses → Task → Returned
finish_resumed addresses task =
    let token = finish_token addresses task in
    let closed = compile_cell (compile_cell token.task addresses.b_exit) addresses.b_sentinel in
    if task.compile.state == comp_anonymous
    then record { res = e_ok; task = set_state 0 task }
    else if not (task.compile.s0 == task.sp)
    then record { res = e_csmismatch; task = compile_cancel task }
    else record { res = token.res; task = set_state 0 closed }

-- e4__compile_finish
unfoldable pub compile_finish : Addresses → Task → Returned
compile_finish addresses task = finish_resumed addresses (compile_resume task).task

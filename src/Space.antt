-- ===== src/Space.antt =====
-- core/src/kernel/task.c: the space of a task, its creation and what can be asked of it. `self` is
-- the cell at which the task starts. The size of its struct is that of a build with every word
-- set, where the platform's jmp_buf has `jmp_buf_sz` bytes.
pub mod Allot
pub mod Create
pub mod Members
use e.Base.{
  ℕ, ◌+◌, ◌-◌, ◌*◌, ◌/◌, ◌%◌, ◌^◌, Bool, true, false, ◌&&◌, not, ltb, leb, ◌==◌, if◌then◌else◌,
  Option, none, some, List,
}
use e.Errors.{e_ok, e_dictoverflow, e_dictunderflow}
use e.Usize.{Double, modulus, max_usize, usize_bit}
use e.Task.{Task, InputSource, CompileState, ExceptionState, PnoState, FileException, Memory}
use e.Mem.Layout.{cell_sz}
use e.Dict.Entry.{Header}
use e.Exception.{Outcome, returns, throws, throw}

-- e4__PNO_MIN_SZ and e4__TASK_MIN_SZ
abbrev pub pno_min_sz : ℕ
pno_min_sz = usize_bit * 2 + 2

abbrev pub task_min_sz : ℕ
task_min_sz = 1024

-- e4__task_allot_unchecked: the task after it; it returns `here` from before.
unfoldable pub allot_unchecked : Task → ℕ → Task
allot_unchecked task sz = record task { here = (task.here + sz) % modulus }

-- The bounds of `here`, for a struct of `struct_sz` bytes.
unfoldable pub lower_bound : ℕ → ℕ → ℕ
lower_bound self struct_sz = self * cell_sz + struct_sz

unfoldable pub upper_bound : Task → ℕ
upper_bound task = task.pad * cell_sz - pno_min_sz

-- e4__task_allot; 0 stands for NULL.
unfoldable pub task_allot : ℕ → ℕ → Task → ℕ → Outcome ℕ
task_allot self struct_sz task sz =
    let grown = allot_unchecked task sz in
    let ex =
      if ltb (upper_bound task) grown.here
      then e_dictoverflow
      else if ltb grown.here (lower_bound self struct_sz)
      then e_dictunderflow
      else e_ok in
    let failed : Outcome ℕ = elim (throw task ex) [
      | returns _ task' ↦ returns 0 task'
      | throws task' ↦ throws task'
    ] in
    if not (ex == 0) then failed else returns task.here grown

-- e4__task_unused
unfoldable pub task_unused : Task → ℕ
task_unused task =
    if ltb task.here (task.pad * cell_sz - pno_min_sz)
    then ((task.pad * cell_sz - task.here) / cell_sz * cell_sz + modulus - pno_min_sz) % modulus
    else 0

-- e4__task_compiling
unfoldable pub task_compiling : Task → Bool
task_compiling task = not (task.compile.state == 0)

-- memset of the buffer to 0
abbrev pub cleared : Memory → ℕ → ℕ → Memory
cleared m from n x = if leb from x && ltb x (from + n) then 0 else m x

-- sizeof(struct e4__task): 30 cells up to `dict`, 21 of `io_func`, 4 of `exception` and its
-- jmp_buf, 2 of the message of ABORT", 3 of `tsb`, `fib_depth` and `ior`, 7 of `fex`, 20 of
-- `tsb_buf` and 65 of `fib`. The struct is aligned to a cell.
unfoldable pub sizeof_task : ℕ → ℕ
sizeof_task jmp_buf_sz =
    (30 + 21 + 4 + 2 + 3 + 2 + 7 + 20 + 65) * cell_sz + (jmp_buf_sz + 7) / cell_sz * cell_sz

-- The fields of a new task of `sz` bytes, a multiple of the size of a cell, at the cell `c0`. Up to
-- `base`, the members of its struct have the size of a cell each: `base` is the 28th after the
-- first, `io_src.in` the 13th and `compile.state` the 16th.
unfoldable pub created : ℕ → List Header → Memory → ℕ → ℕ → Task
created jmp_buf_sz builtins mem c0 sz =
    let tib = c0 + 85 * sz % modulus / (100 * cell_sz) in
    let rl = c0 + 90 * sz % modulus / (100 * cell_sz) in
    let s0 = c0 + 85 * sz % modulus / (100 * cell_sz) - 1 in
    let r0 = c0 + sz / cell_sz - 1 in
    let tib_sz = rl * cell_sz - tib * cell_sz in
    record {
      mem = cleared mem c0 (sz / cell_sz);
      here = c0 * cell_sz + sizeof_task jmp_buf_sz / cell_sz * cell_sz;
      pad = c0 + 70 * sz % modulus / (100 * cell_sz);
      s0 = s0;
      sp = s0;
      tib = tib;
      r0 = r0;
      rp = r0;
      ip = 0;
      base_ptr = c0 * cell_sz + 28 * cell_sz;
      in_ptr = c0 * cell_sz + 13 * cell_sz;
      state_ptr = c0 * cell_sz + 16 * cell_sz;
      io_src = record { buffer = tib * cell_sz; sid = 0; to_in = 0; length = 0; sz = tib_sz };
      compile = record { state = 0; sus_state = 0; s0 = 0; here0 = 0; xt = 0 };
      pno = record { end = 0; offset = 0 };
      tr0 = r0;
      sl = c0 + 75 * sz % modulus / (100 * cell_sz);
      rl = rl;
      task_sz = sz;
      tib_sz = tib_sz;
      base = 10;
      dict = builtins;
      exception = record { valid = false; code = 0; then_callback = none; user = 0 };
      abortq_msg = 0;
      abortq_msg_len = 0;
      fib_depth = 0;
      ior = 0;
      fex = record { ex = 0; ior = 0; line = 0; path = 0; path_sz = 0; buf = 0; buf_sz = 0 };
    }

-- e4__task_create in the buffer at the cell `c0` of a memory; `builtins` is the dictionary of the
-- table e4__BUILTIN_HEADER.
unfoldable pub task_create : ℕ → List Header → Memory → ℕ → ℕ → Option Task
task_create jmp_buf_sz builtins mem c0 size =
    let sz = size / cell_sz * cell_sz in
    if ltb sz task_min_sz then none else some (created jmp_buf_sz builtins mem c0 sz)

-- enum e4__env_query
pub data EnvQuery : Type 0 where
  addrunitbits floored holdsz maxchar maxcstrsz maxdouble maxint maxudouble maxuint padsz
        rstackcells stackcells env_query_count :
      EnvQuery

-- What is written through `out`.
pub data EnvAnswer : Type 0 where
  single : ℕ → EnvAnswer
  double : Double → EnvAnswer
  unwritten : EnvAnswer

-- e4__task_eq
unfoldable pub task_eq : Task → EnvQuery → EnvAnswer
task_eq task addrunitbits = single usize_bit
task_eq task floored = single 0
task_eq task holdsz = single pno_min_sz
task_eq task maxchar = single 255
task_eq task maxcstrsz = single 255
task_eq task maxdouble = double (record { high = max_usize / 2; low = max_usize })
task_eq task maxint = single (max_usize / 2)
task_eq task maxudouble = double (record { high = max_usize; low = max_usize })
task_eq task maxuint = single max_usize
task_eq task padsz = single (task.sl * cell_sz - task.pad * cell_sz)
task_eq task rstackcells = single ((task.r0 * cell_sz + cell_sz - task.rl * cell_sz) / cell_sz)
task_eq task stackcells = single ((task.s0 * cell_sz + cell_sz - task.sl * cell_sz) / cell_sz)
task_eq task env_query_count = unwritten

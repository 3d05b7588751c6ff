-- ===== src/Space/Create.antt =====
-- The layout of a new task.
use e.Base.{
  ℕ, ◌+◌, ◌-◌, ◌*◌, ◌/◌, ◌^◌, ◌≤◌, ◌<◌, ◌≡◌, refl, arith, some, List, [], ltb, false, none,
}
use e.Dict.Entry.{Header}
use e.Task.{Task, Memory}
use e.Mem.Layout.{cell_sz}
use e.Stack.{avail, ravail}
use e.Stack.Contents.{cells, contents, return_contents, IsCoherent, avail_lem, ravail_lem}
use e.Compile.States.{NoCompilation}
use e.Space.{sizeof_task, created, task_create, task_min_sz}

no_cells : (m : Memory) (a : ℕ) → cells m (a + 1) (a - a) ≡ []
no_cells m a = let none_left : a - a ≡ 0 = omega arith in rw none_left refl

-- A buffer has room for the struct of a task, and for a cell of the dictionary, in the 70% before
-- the pad.
abbrev pub HasRoom : ℕ → ℕ → Type 0
HasRoom jmp_buf_sz size = 10 * (sizeof_task jmp_buf_sz + 2 * cell_sz) ≤ 7 * size

-- The areas of a task in a buffer of `n` cells at the cell `c0`, each before the next: the struct,
-- the dictionary space, the pad, the parameter stack, the terminal's buffer and the return stack.
abbrev pub IsLaidOut : ℕ → ℕ → ℕ → Task → Type 0
IsLaidOut jmp_buf_sz c0 n task =
    (task.here ≡ c0 * cell_sz + sizeof_task jmp_buf_sz)
    × (task.here < task.pad * cell_sz)
    × (task.pad < task.sl)
    × (task.s0 + 1 ≡ task.tib)
    × (task.tib * cell_sz + task.tib_sz ≡ task.rl * cell_sz)
    × (task.r0 + 1 ≡ c0 + n)

-- No exception is caught or noted.
abbrev pub NoException : Task → Type 0
NoException task =
    (task.exception.valid ≡ false)
    × (task.exception.code ≡ 0)
    × (task.exception.then_callback ≡ none)

-- In a buffer of 1024 bytes or more that ends below 2 ^ 57 and whose part before the pad has room
-- for the struct, a task is created: its struct, its dictionary space and the other areas lie in
-- the buffer in their order, with HERE at the end of the struct, both stacks are empty with room
-- for 12 cells or more, nothing is compiled, no handler is installed and no exception noted, the
-- dictionary is that of the builtins and numbers are decimal.
pub task_create_lem :
    (jmp_buf_sz : ℕ) (builtins : List Header) (mem : Memory) (c0 size : ℕ)
    → 1 ≤ c0
    → task_min_sz ≤ size
    → size < 2 ^ 57
    → HasRoom jmp_buf_sz size
    → (task : Task) × (task_create jmp_buf_sz builtins mem c0 size ≡ some task)
      × IsCoherent task
      × (contents task ≡ [])
      × (return_contents task ≡ [])
      × (12 ≤ avail task)
      × (12 ≤ ravail task)
      × IsLaidOut jmp_buf_sz c0 (size / cell_sz) task
      × NoCompilation task
      × NoException task
      × (task.dict ≡ builtins)
      × (task.base ≡ 10)
unfolding task_create created contents return_contents sizeof_task
task_create_lem jmp_buf_sz builtins mem c0 size low enough small room_left =
    let sz = size / cell_sz * cell_sz in
    let fits : ltb (size / cell_sz * cell_sz) task_min_sz ≡ false = ground arith in
    let task = created jmp_buf_sz builtins mem c0 sz in
    let room : avail task ≡ task.sp + 1 - task.sl = avail_lem task (omega arith) in
    let rroom : ravail task ≡ task.rp + 1 - task.rl = ravail_lem task (omega arith) in
    (
      task,
      rw fits refl,
      omega arith,
      no_cells _ _,
      no_cells _ _,
      omega arith,
      omega arith,
      (omega arith, omega arith, omega arith, omega arith, omega arith, omega arith),
      (refl, refl),
      (refl, refl, refl),
      refl,
      refl,
    )

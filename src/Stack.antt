-- ===== src/Stack.antt =====
-- core/src/kernel/stack.c: the parameter stack and the return stack, which grow down. The top is
-- the cell above the stack pointer. No operation checks a bound.
pub mod Contents
pub mod Shuffle
pub mod Roll
use e.Base.{ℕ, zero, suc, ◌+◌, ◌-◌, ◌≤◌, ◌≡◌, arith, leb, if◌then◌else◌}
use e.Usize.{modulus}
use e.Task.{Task, Memory, store}

-- The difference of two pointers to cells as a word, which wraps when it is negative.
unfoldable pub difference : ℕ → ℕ → ℕ
difference a b = if leb b a then a - b else modulus - (b - a)

pub difference_lem : (a b : ℕ) → b ≤ a → difference a b ≡ a - b
unfolding difference
difference_lem a b le = ground arith

-- e4__stack_avail
unfoldable pub avail : Task → ℕ
unfolding difference
avail task = difference (task.sp + 1) task.sl

-- e4__stack_clear
unfoldable pub clear : Task → Task
clear task = record task { sp = task.s0 }

-- e4__stack_depth
unfoldable pub depth : Task → ℕ
unfolding difference
depth task = difference task.s0 task.sp

-- e4__stack_drop
unfoldable pub drop : Task → Task
drop task = record task { sp = task.sp + 1 }

-- e4__stack_dup
unfoldable pub dup : Task → Task
dup task = record task { mem = store task.mem task.sp (task.mem (task.sp + 1)); sp = task.sp - 1 }

-- e4__stack_over
unfoldable pub over : Task → Task
over task = record task { mem = store task.mem task.sp (task.mem (task.sp + 2)); sp = task.sp - 1 }

-- e4__stack_peek
unfoldable pub peek : Task → ℕ
peek task = task.mem (task.sp + 1)

-- e4__stack_pick
unfoldable pub pick : Task → ℕ → ℕ
pick task u = task.mem (task.sp + u + 1)

-- A value that is taken from a stack, and the task after it.
pub record Popped : Type 0 where
  pub cell : ℕ
  pub task : Task

-- e4__stack_pop
unfoldable pub pop : Task → Popped
pop task = record { cell = task.mem (task.sp + 1); task = record task { sp = task.sp + 1 } }

-- e4__stack_push
unfoldable pub push : Task → ℕ → Task
push task v = record task { mem = store task.mem task.sp v; sp = task.sp - 1 }

-- e4__stack_rot
unfoldable pub rot : Task → Task
rot task =
    let tmp = task.mem (task.sp + 3) in
    let m = store task.mem (task.sp + 3) (task.mem (task.sp + 2)) in
    let m' = store m (task.sp + 2) (m (task.sp + 1)) in
    record task { mem = store m' (task.sp + 1) tmp }

-- e4__stack_ravail
unfoldable pub ravail : Task → ℕ
unfolding difference
ravail task = difference (task.rp + 1) task.rl

-- e4__stack_rdepth
unfoldable pub rdepth : Task → ℕ
unfolding difference
rdepth task = difference task.tr0 task.rp

-- e4__stack_rpeek
unfoldable pub rpeek : Task → ℕ
rpeek task = task.mem (task.rp + 1)

-- e4__stack_rpop
unfoldable pub rpop : Task → Popped
rpop task = record { cell = task.mem (task.rp + 1); task = record task { rp = task.rp + 1 } }

-- e4__stack_rpush
unfoldable pub rpush : Task → ℕ → Task
rpush task v = record task { mem = store task.mem task.rp v; rp = task.rp - 1 }

-- The loop of e4__stack_roll, which moves `u` cells up by one.
unfoldable pub shift_up : Memory → ℕ → ℕ → Memory
shift_up m sp zero = m
shift_up m sp (suc u) = shift_up (store m (sp + 1 + suc u) (m (sp + suc u))) sp u

-- e4__stack_roll
unfoldable pub roll : Task → Task
roll task =
    let u = task.mem (task.sp + 1) in
    let sp = task.sp + 1 in
    let tmp = task.mem (sp + 1 + u) in
    record task { mem = store (shift_up task.mem sp u) (sp + 1) tmp; sp = sp }

-- e4__stack_swap
unfoldable pub swap : Task → Task
swap task =
    let tmp = task.mem (task.sp + 2) in
    let m = store task.mem (task.sp + 2) (task.mem (task.sp + 1)) in
    record task { mem = store m (task.sp + 1) tmp }

-- e4__stack_tuck
unfoldable pub tuck : Task → Task
tuck task = over (swap task)

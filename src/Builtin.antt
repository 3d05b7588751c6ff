-- ===== src/Builtin.antt =====
-- Builtin words: the tests of core/src/builtin/builtin.c, e4__builtin_exec, and words of
-- CORE.def.inc, CORE-EXT.def.inc and SYSTEM.def.inc beside it that work on the two stacks and the
-- instruction pointer.
pub mod Effects
use e.Base.{
  ℕ, suc, ◌+◌, ◌-◌, ◌*◌, ◌/◌, ◌%◌, Bool, true, false, not, ltb, ◌==◌, if◌then◌else◌, Option, none,
  some,
}
use e.Errors.{e_ok, e_stkoverflow, e_stkunderflow, e_rstkoverflow, e_rstkunderflow, e_csmismatch}
use e.Usize.{modulus}
use e.Task.{Task, store}
use e.Mem.Layout.{cell_sz}
use e.Stack.{
  Popped, avail, depth, ravail, rdepth, push, pop, peek, pick, rpush, rpop, rpeek, drop, dup, over,
  rot, swap, clear,
}
use e.Exception.{Outcome, returns, throws, throw, catch}
use e.Compile.{compile_cancel}
use e.Execute.{Run, and_then, execute}
use e.Execute.Words.{Code, to_value, to_cell, go_on, execute_ret}

-- A test that fails throws, and returns if nothing catches that.
unfoldable pub refuse : Code → Task → ℕ → Outcome Unit
refuse code task e = go_on (throw task e) (execute_ret code)

-- _e4__BUILTIN_EXPECT_AVAIL, _DEPTH, _RAVAIL and _RDEPTH in front of the rest of a word.
unfoldable pub expect_avail : Code → Task → ℕ → Outcome Unit → Outcome Unit
unfolding refuse
expect_avail code task c rest = if ltb (avail task) c then refuse code task e_stkoverflow else rest

unfoldable pub expect_depth : Code → Task → ℕ → Outcome Unit → Outcome Unit
unfolding refuse
expect_depth code task c rest = if ltb (depth task) c then refuse code task e_stkunderflow else rest

unfoldable pub expect_ravail : Code → Task → ℕ → Outcome Unit → Outcome Unit
unfolding refuse
expect_ravail code task c rest =
    if ltb (ravail task) c then refuse code task e_rstkoverflow else rest

unfoldable pub expect_rdepth : Code → Task → ℕ → Outcome Unit → Outcome Unit
unfolding refuse
expect_rdepth code task c rest =
    if ltb (rdepth task) c then refuse code task e_rstkunderflow else rest

-- _e4__BUILTIN_EXPECT_REF
unfoldable pub expect_ref : Code → Task → ℕ → Outcome Unit → Outcome Unit
unfolding refuse
expect_ref code task c rest =
    if ltb (depth task) c then refuse code (compile_cancel task) e_csmismatch else rest

-- e4__builtin_DROP
unfoldable pub builtin_drop : Code → Task → Outcome Unit
builtin_drop code task = expect_depth code task 1 (execute_ret code (drop task))

-- e4__builtin_DUP
unfoldable pub builtin_dup : Code → Task → Outcome Unit
builtin_dup code task =
    expect_depth code task 1 (expect_avail code task 1 (execute_ret code (dup task)))

-- e4__builtin_OVER
unfoldable pub builtin_over : Code → Task → Outcome Unit
builtin_over code task =
    expect_depth code task 2 (expect_avail code task 1 (execute_ret code (over task)))

-- e4__builtin_ROT
unfoldable pub builtin_rot : Code → Task → Outcome Unit
builtin_rot code task = expect_depth code task 3 (execute_ret code (rot task))

-- e4__builtin_SWAP
unfoldable pub builtin_swap : Code → Task → Outcome Unit
builtin_swap code task = expect_depth code task 2 (execute_ret code (swap task))

-- e4__builtin_DEPTH
unfoldable pub builtin_depth : Code → Task → Outcome Unit
builtin_depth code task = expect_avail code task 1 (execute_ret code (push task (depth task)))

-- e4__builtin_PICK
unfoldable pub builtin_pick : Code → Task → Outcome Unit
builtin_pick code task =
    let index = pop task in
    expect_depth code task 1 (
      expect_depth code task ((peek task + 2) % modulus)
        (execute_ret code (push index.task (pick index.task index.cell))))

-- e4__builtin_PLUS
unfoldable pub builtin_plus : Code → Task → Outcome Unit
builtin_plus code task =
    let r = pop task in
    let l = pop r.task in
    expect_depth code task 2 (execute_ret code (push l.task ((l.cell + r.cell) % modulus)))

-- e4__builtin_CLEAR
unfoldable pub builtin_clear : Code → Task → Outcome Unit
builtin_clear code task = execute_ret code (clear task)

-- e4__builtin_TO_R
unfoldable pub builtin_to_r : Code → Task → Outcome Unit
builtin_to_r code task = expect_depth code task 1 (
    expect_ravail code task 1
      (go_on (execute_ret code task) (λ t. returns tt (rpush (pop t).task (pop t).cell))))

-- e4__builtin_R_FROM
unfoldable pub builtin_r_from : Code → Task → Outcome Unit
builtin_r_from code task = expect_rdepth code task 2 (
    expect_avail code task 1
      (go_on (execute_ret code task) (λ t. returns tt (push (rpop t).task (rpop t).cell))))

-- e4__builtin_R_FETCH
unfoldable pub builtin_r_fetch : Code → Task → Outcome Unit
builtin_r_fetch code task =
    expect_rdepth code task 2 (
      expect_avail code task 1 (go_on (execute_ret code task) (λ t. returns tt (push t (rpeek t)))))

-- e4__builtin_LIT_CELL: the test for room comes after the return address is taken.
unfoldable pub builtin_lit_cell : Code → Task → Outcome Unit
builtin_lit_cell code task =
    let at = to_cell (task.mem (task.rp + 1)) in
    let t : Task = record task { rp = task.rp + 1; ip = at + 1 } in
    expect_rdepth code task 1 (expect_avail code t 1 (returns tt (push t (task.mem at))))

-- e4__builtin_BRANCH; the offset counts cells.
unfoldable pub builtin_branch : Code → Task → Outcome Unit
builtin_branch code task =
    let at = to_cell (task.mem (task.rp + 1)) in
    expect_rdepth code task 1 (
      returns tt (record task {
        rp = task.rp + 1;
        ip = to_cell ((to_value at + to_value (task.mem at)) % modulus);
      }))

-- e4__builtin_BRANCH0
unfoldable pub builtin_branch0 : Code → Task → Outcome Unit
builtin_branch0 code task =
    let at = to_cell (task.mem (task.rp + 1)) in
    let offset = if (pop task).cell == 0 then task.mem at else 1 in
    expect_rdepth code task 1 (
      expect_depth code task 1 (
        returns tt (record (pop task).task {
          rp = task.rp + 1;
          ip = to_cell ((to_value at + to_value offset) % modulus);
        })))

-- e4__builtin_exec, for the token of a builtin word: with `word` for what executing the token does.
unfoldable pub builtin_exec : (ℕ → Task → Outcome Unit) → (Task → Outcome Unit) → Task → Outcome ℕ
builtin_exec callback word task =
    let direct : Outcome ℕ = elim (word task) [
      | returns _ task' ↦ returns e_ok task'
      | throws task' ↦ throws task'
    ] in
    if not task.exception.valid then catch callback word task else direct

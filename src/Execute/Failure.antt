-- ===== src/Execute/Failure.antt =====
-- What the interpreter does when a stack is out of bounds or out of balance.
use e.Base.{
  ℕ, zero, suc, ◌+◌, ◌-◌, ◌≤◌, ◌≡◌, ◌≢◌, refl, arith, ap, ◌∙◌, true, false, ltb, ◌==◌,
  if◌then◌else◌, Bool-cases, inl, inr, none, some,
}
use e.Errors.{e_rstkoverflow, e_rstkunderflow, e_rstkimbalance}
use e.Task.{Task, store}
use e.Stack.{ravail, rdepth, rpush, rpop}
use e.Exception.{returns, throws, throw, throw_then}
use e.Execute.{execute, thread_loop}
use e.Execute.Words.{Code, to_value, to_cell, execute_ret, pop_ip, leave_thread}
use e.Execute.Leaf.{to_cell-to_value}
use e.Execute.Thread.{loop_execute}
use e.Stack.Contents.{rdepth_lem, store_same}

abbrev pub with_code : Task → ℕ → Task
with_code task e = record task {
  exception = record { valid = true; code = e; then_callback = none; user = 0 };
}

throw_caught :
    (task : Task) (e : ℕ)
    → task.exception.valid ≡ true
    → e ≢ 0
    → throw task e ≡ throws (with_code task e)
unfolding throw throw_then
throw_caught task e on ne = let test : (e == 0) ≡ false = ground arith in rw (test, on) refl

throw_uncaught :
    (task : Task) (e : ℕ) → task.exception.valid ≡ false → throw task e ≡ returns tt task
unfolding throw throw_then
throw_uncaught task e off = ground (arith, off)

execute_full :
    (code : Code) (fuel xt : ℕ) (t : Task)
    → t.exception.valid ≡ false
    → ravail t ≡ 0
    → execute code (suc fuel) t xt ≡ some (returns tt t)
unfolding execute
execute_full code fuel xt t off full =
    let test : (ravail t == 0) ≡ true = ground arith in
    rw (execute, test, throw_uncaught t e_rstkoverflow off) refl

-- Where nothing catches exceptions and the return stack is full, at the token of a word that is
-- neither a colon definition nor EXIT, the loop of the interpreter never ends: it has no result,
-- whatever its fuel.
pub thread_loop_stuck :
    (code : Code) (fuel depth xt : ℕ) (t : Task)
    → t.exception.valid ≡ false
    → ravail t ≡ 0
    → t.mem t.ip ≡ to_value xt
    → t.mem xt ≢ code.threaded
    → to_value xt ≢ code.exit_xt
    → thread_loop code fuel (suc depth) t ≡ none
unfolding thread_loop execute
thread_loop_stuck code zero depth xt t off full at native other = refl
thread_loop_stuck code (suc zero) depth xt t off full at native other =
    let cell : to_cell (t.mem t.ip) ≡ xt = ap to_cell at ∙ to_cell-to_value xt in
    let test : (t.mem (to_cell (t.mem t.ip)) == code.threaded) ≡ false = rw cell (ground arith) in
    let test' : (t.mem t.ip == code.exit_xt) ≡ false = rw at (ground arith) in
    rw (thread_loop, test, test') refl
thread_loop_stuck code (suc (suc fuel)) depth xt t off full at native other =
    loop_execute code (suc fuel) depth xt t t at native other (execute_full code fuel xt t off full)
    ∙ thread_loop_stuck code (suc fuel) depth xt t off full at native other

-- Where a thread ends with its return stack not as it started, e4__execute_threaded throws
-- RSTKIMBALANCE if that is caught; otherwise it goes on as from a thread that ends as it started.
pub leave_thread_unbalanced :
    (code : Code) (t : Task)
    → t.rp ≢ t.tr0
    → leave_thread code t ≡ (
        if t.exception.valid
        then throws (with_code t e_rstkimbalance)
        else leave_thread code (record t { rp = t.tr0 }))
unfolding leave_thread
leave_thread_unbalanced code t ne =
    let test : (t.rp == t.tr0) ≡ false = ground arith in
    let test' : (t.tr0 == t.tr0) ≡ true = ground arith in
    elim (Bool-cases t.exception.valid) [
      | inl on ↦ rw (test, throw_caught t e_rstkimbalance on (omega arith), on) refl
      | inr off ↦ rw (test, throw_uncaught t e_rstkimbalance off, test', off) refl
    ]

-- What is left of a task that returns on an empty return stack while nothing catches exceptions.
abbrev pub at_return_thunk : Code → Task → Task
at_return_thunk code t = record t {
  mem = store t.mem t.rp code.return_thunk;
  ip = to_cell code.return_thunk;
}

-- Returning on an empty return stack throws RSTKUNDERFLOW if that is caught; otherwise it goes on
-- at the thunk that returns, with the pointers of the stacks as they were.
pub execute_ret_underflow :
    (code : Code) (t : Task)
    → t.rp ≡ t.tr0
    → 1 ≤ t.rp
    → execute_ret code t ≡ (
        if t.exception.valid
        then throws (with_code t e_rstkunderflow)
        else returns tt (at_return_thunk code t))
unfolding execute_ret pop_ip rpop rpush
execute_ret_underflow code t empty low =
    let test : ltb (rdepth t) 1 ≡ true = ground (arith, rdepth_lem t (omega arith)) in
    let back : t.rp - 1 + 1 ≡ t.rp = omega arith in
    elim (Bool-cases t.exception.valid) [
      | inl on ↦ rw (test, throw_caught t e_rstkunderflow on (omega arith), on) refl
      | inr off ↦
          rw
            (
              test,
              throw_uncaught t e_rstkunderflow off,
              off,
              back,
              store_same t.mem t.rp code.return_thunk,
            )
            refl
    ]

-- ===== src/Execute/Thread.antt =====
-- The loop of the interpreter of threaded code, one step at a time; nested threads.
use e.Base.{ℕ, suc, ◌≤◌, ◌≡◌, ◌≢◌, refl, arith, ap, ◌∙◌, true, false, ltb, ◌==◌, some}
use e.Task.{Task}
use e.Stack.{ravail}
use e.Exception.{returns}
use e.Execute.{execute, thread_loop, and_then}
use e.Execute.Words.{Code, to_value, to_cell, nest_thread, leave_thread}
use e.Execute.Leaf.{to_cell-to_value}

module _ (code : Code) where
  pub loop_execute :
      (f d xt : ℕ) (t t' : Task)
      → t.mem t.ip ≡ to_value xt
      → t.mem xt ≢ code.threaded
      → to_value xt ≢ code.exit_xt
      → execute code f t xt ≡ some (returns tt t')
      → thread_loop code (suc f) (suc d) t ≡ thread_loop code f (suc d) t'
  unfolding thread_loop
  loop_execute f d xt t t' at native other ran =
      let cell : to_cell (t.mem t.ip) ≡ xt = ap to_cell at ∙ to_cell-to_value xt in
      let test : (t.mem (to_cell (t.mem t.ip)) == code.threaded) ≡ false = rw cell (ground arith) in
      let test' : (t.mem t.ip == code.exit_xt) ≡ false = rw at (ground arith) in
      rw (thread_loop, test, test', cell, ran) refl

  pub loop_nest :
      (f d xt : ℕ) (t : Task)
      → t.mem t.ip ≡ to_value xt
      → t.mem xt ≡ code.threaded
      → 2 ≤ ravail t
      → thread_loop code (suc f) (suc d) t ≡ thread_loop code f (suc (suc d)) (nest_thread t)
  unfolding thread_loop
  loop_nest f d xt t at nested room =
      let cell : to_cell (t.mem t.ip) ≡ xt = ap to_cell at ∙ to_cell-to_value xt in
      let test : (t.mem (to_cell (t.mem t.ip)) == code.threaded) ≡ true = rw cell (ground arith) in
      let test' : ltb (ravail t) 2 ≡ false = ground arith in rw (thread_loop, test, test') refl

  pub loop_exit :
      (f d : ℕ) (t : Task)
      → t.mem t.ip ≡ code.exit_xt
      → t.mem (to_cell code.exit_xt) ≢ code.threaded
      → thread_loop code (suc f) (suc (suc d)) t
        ≡ and_then (some (leave_thread code t)) (thread_loop code f (suc d))
  unfolding thread_loop
  loop_exit f d t at native =
      let test : (t.mem (to_cell (t.mem t.ip)) == code.threaded) ≡ false = rw at (ground arith) in
      let test' : (t.mem t.ip == code.exit_xt) ≡ true = ground arith in
      let test'' : (suc d == 0) ≡ false = ground arith in rw (thread_loop, test, test', test'') refl

  pub loop_end :
      (f : ℕ) (t : Task)
      → t.mem t.ip ≡ code.exit_xt
      → t.mem (to_cell code.exit_xt) ≢ code.threaded
      → thread_loop code (suc f) 1 t ≡ some (returns tt t)
  unfolding thread_loop
  loop_end f t at native =
      let test : (t.mem (to_cell (t.mem t.ip)) == code.threaded) ≡ false = rw at (ground arith) in
      let test' : (t.mem t.ip == code.exit_xt) ≡ true = ground arith in
      rw (thread_loop, test, test') refl

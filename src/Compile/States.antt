-- ===== src/Compile/States.antt =====
-- The compilation state as a machine.
use e.Base.{ℕ, ◌≡◌, ◌≢◌, refl, arith, false, ◌==◌, if◌then◌else◌, ◌⊎◌, inl, inr}
use e.Errors.{e_ok, e_nestedcompile}
use e.Task.{Task}
use e.Compile.{
  compile_start, compile_suspend, compile_resume, compile_cancel, cancel_resumed, set_state,
  comp_does, comp_noname,
}

-- While a word is compiled, neither a start nor a resumption is accepted, and both leave the task.
pub nested_refused :
    (task : Task) (xt mode : ℕ)
    → task.compile.state ≢ 0
    → (compile_start task xt mode ≡ record { res = e_nestedcompile; task = task })
      × (compile_resume task ≡ record { res = e_nestedcompile; task = task })
unfolding compile_start compile_resume
nested_refused task xt mode ne =
    let busy : (task.compile.state == 0) ≡ false = ground arith in (rw busy refl, rw busy refl)

-- Resuming a compilation that was suspended gives the task back, with nothing left suspended.
pub compile_resume-compile_suspend :
    (task : Task)
    → task.compile.state ≢ 0
    → compile_resume (compile_suspend task) ≡ record {
      res = e_ok;
      task = record task { compile = record task.compile { sus_state = 0 } };
    }
unfolding compile_resume compile_suspend
compile_resume-compile_suspend task ne =
    let busy : (task.compile.state == 0) ≡ false = ground arith in rw busy refl

abbrev pub NoCompilation : Task → Type 0
NoCompilation task = (task.compile.state ≡ 0) × (task.compile.sus_state ≡ 0)

-- In a task in which nothing is compiled or suspended, cancelling a compilation that was
-- started after DOES> or without a name, also when it was suspended since, leaves none going on
-- and puts `here` back: to the token for a word without a name, and to where it was at the
-- start after DOES>.
pub compile_cancel-compile_start :
    (task : Task) (xt mode : ℕ)
    → NoCompilation task
    → (mode ≡ comp_does) ⊎ (mode ≡ comp_noname)
    → (compile_cancel (compile_start task xt mode).task
        ≡ set_state 0 (record (compile_start task xt mode).task {
          here = if mode == comp_noname then xt else task.here;
        }))
      × (compile_cancel (compile_suspend (compile_start task xt mode).task)
          ≡ set_state 0 (record (compile_start task xt mode).task {
            here = if mode == comp_noname then xt else task.here;
          }))
unfolding compile_start compile_cancel compile_resume cancel_resumed compile_suspend
compile_cancel-compile_start task xt mode none_on (inl does) =
    (rw (none_on.0, none_on.1, does) refl, rw (none_on.0, none_on.1, does) refl)
compile_cancel-compile_start task xt mode none_on (inr noname) =
    (rw (none_on.0, none_on.1, noname) refl, rw (none_on.0, none_on.1, noname) refl)

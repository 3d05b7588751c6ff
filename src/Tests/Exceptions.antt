-- ===== src/Tests/Exceptions.antt =====
-- Runs under handlers: a word that throws an error, and one that throws QUIT with a callback.
use e.Base.{ℕ, ◌+◌, ◌≡◌, refl, arith, some, none, true, inl}
use e.Errors.{e_quit, e_divbyzero}
use e.Task.{Task}
use e.Exception.{Outcome, returns, throws, catch, set_valid}
use e.Exception.Handlers.{IsRestored, catch_lem}
use e.Exception.Rethrow.{IsLeft, under_handler, catch-under_handler}
use e.Tests.Tasks.{sample}

abbrev callback : ℕ → Task → Outcome Unit
callback f task = returns tt (record task { base = f })

-- What is thrown after two cells were dropped.
abbrev thrown_with : ℕ → Task → Task
thrown_with e task = record task {
  sp = task.sp + 2;
  exception = record { valid = true; code = e; then_callback = none; user = 0 };
}

abbrev fails : Task → Outcome Unit
fails task = throws (thrown_with e_divbyzero task)

abbrev quits : Task → Outcome Unit
quits task = throws (record task {
  exception = record { valid = true; code = e_quit; then_callback = some 16; user = 5 };
})

abbrev inside : Task
inside = set_valid true sample

catch_example :
    (task' : Task) × (catch callback fails sample ≡ returns e_divbyzero task')
    × IsRestored sample task'
catch_example =
    catch_lem callback fails sample (thrown_with e_divbyzero (set_valid true sample)) refl refl refl
      (omega arith) (omega arith)

abbrev quit_thrown : Task
quit_thrown = record sample {
  exception = record { valid = true; code = e_quit; then_callback = some 16; user = 5 };
}

catch-under_handler_example :
    (task' : Task) × (catch callback (under_handler callback quits) sample ≡ returns e_quit task')
    × IsLeft sample quit_thrown task'
catch-under_handler_example =
    catch-under_handler callback quits sample quit_thrown refl refl refl (inl refl)

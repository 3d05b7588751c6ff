-- ===== src/Exception.antt =====
-- core/src/kernel/exception.c. longjmp leaves the code that runs: code that may throw has an
-- outcome, and the jump buffer is the handler that the outcome meets.
pub mod Handlers
pub mod Rethrow
use e.Base.{ℕ, Bool, true, false, ◌||◌, not, ◌==◌, if◌then◌else◌, Option, none, some}
use e.Errors.{e_quit, e_bye}
use e.Task.{Task, ExceptionState}

-- Code returns a value, or jumps to the handler.
pub data Outcome (A : Type 0) : Type 0 where
  returns : A → Task → Outcome A
  throws : Task → Outcome A

-- e4__exception_throw_then
unfoldable pub throw_then : Task → ℕ → Option ℕ → ℕ → Outcome Unit
throw_then task e callback user =
    if e == 0 || not task.exception.valid
    then returns tt task
    else throws (record task {
      exception = record task.exception { then_callback = callback; user = user; code = e };
    })

-- e4__exception_throw
unfoldable pub throw : Task → ℕ → Outcome Unit
throw task e = throw_then task e none 0

abbrev pub forget_callback : Task → Task
forget_callback task = record task {
  exception = record task.exception { then_callback = none; user = 0 };
}

-- What e4__exception_catch does after a jump, with `saved` the task at its start and `callback` the
-- code of the callbacks, which may throw to an outer handler.
unfoldable pub restore : (ℕ → Task → Outcome Unit) → Task → Task → Outcome Unit
restore callback saved task =
    let back = record task {
      sp = if not (task.exception.code == e_quit) then saved.sp else task.sp;
      rp = saved.rp;
      tr0 = saved.tr0;
      io_src = saved.io_src;
      ip = 0;
    } in
    let called : Outcome Unit = elim task.exception.then_callback [
      | none ↦ returns tt back
      | some f ↦ callback f back
    ] in
    elim called [
      | returns _ task' ↦ returns tt (forget_callback task')
      | throws task' ↦ throws task'
    ]

-- The end of e4__exception_catch: its result, and the code that was there before.
unfoldable pub finish_catch : Task → Task → Outcome ℕ
finish_catch saved task =
    returns task.exception.code
      (record task { exception = record task.exception { code = saved.exception.code } })

-- The end after what was put back.
unfoldable pub finish_restored : Task → Outcome Unit → Outcome ℕ
finish_restored saved (returns _ task) = finish_catch saved task
finish_restored saved (throws task) = throws task

abbrev pub set_valid : Bool → Task → Task
set_valid b task = record task { exception = record task.exception { valid = b } }

-- The branch of e4__exception_catch after a jump to a handler inside another: QUIT and BYE go on.
unfoldable pub caught_inside : (ℕ → Task → Outcome Unit) → Task → Task → Outcome ℕ
caught_inside callback saved task =
    let kept = finish_restored saved (restore callback saved task) in
    let thrown = throw task task.exception.code in
    if task.exception.code == e_quit || task.exception.code == e_bye
    then elim thrown [
      | returns _ task' ↦ finish_restored saved (restore callback saved task')
      | throws task' ↦ throws task'
    ]
    else kept

-- e4__exception_catch, for a word that does `word` when it is executed.
unfoldable pub catch : (ℕ → Task → Outcome Unit) → (Task → Outcome Unit) → Task → Outcome ℕ
catch callback word task =
    let outer : Outcome ℕ = elim (word (set_valid true task)) [
      | returns _ task' ↦ finish_catch task (set_valid false task')
      | throws task' ↦ finish_restored task (restore callback task (set_valid false task'))
    ] in
    let inner : Outcome ℕ = elim (word task) [
      | returns _ task' ↦ finish_catch task task'
      | throws task' ↦ caught_inside callback task task'
    ] in
    if not task.exception.valid then outer else inner

-- ===== src/Exception/Handlers.antt =====
-- What a handler catches, and what it puts back.
use e.Base.{
  ℕ, ◌≡◌, ◌≢◌, refl, arith, ap, sym, ◌∙◌, Bool, true, false, ◌||◌, ◌==◌, Option, none, inl, inr,
  Bool-cases,
}
use e.Errors.{e_quit, e_bye}
use e.Task.{Task}
use e.Exception.{
  Outcome, returns, throws, throw_then, catch, restore, finish_catch, finish_restored,
  caught_inside, set_valid,
}

-- The state that a handler puts back: stacks, input source, exception code and whether a handler is
-- installed. It forgets the callback.
abbrev pub IsRestored : Task → Task → Type 0
IsRestored saved task =
    (task.sp ≡ saved.sp)
    × (task.rp ≡ saved.rp)
    × (task.tr0 ≡ saved.tr0)
    × (task.io_src ≡ saved.io_src)
    × (task.ip ≡ 0)
    × (task.exception.code ≡ saved.exception.code)
    × (task.exception.valid ≡ saved.exception.valid)
    × (task.exception.then_callback ≡ none)

either_true : (b : Bool) → (b || true) ≡ true
either_true true = refl
either_true false = refl

-- Throwing does nothing for the code 0 or where no handler is installed; otherwise it jumps, with
-- the code and the callback recorded.
pub throw_then_lem :
    (task : Task) (e user : ℕ) (f : Option ℕ)
    → (throw_then task 0 f user ≡ returns tt task)
      × (task.exception.valid ≡ false → throw_then task e f user ≡ returns tt task)
      × (task.exception.valid ≡ true
          → e ≢ 0
          → throw_then task e f user
            ≡ throws (record task {
              exception = record { valid = true; code = e; then_callback = f; user = user };
            }))
unfolding throw_then
throw_then_lem task e user f = (
  refl,
  λ off. rw (off, either_true (e == 0)) refl,
  λ on ne. let nz : (e == 0) ≡ false = ground arith in rw (nz, on) refl,
)

-- The task after a jump without a callback.
abbrev put_back : Task → Task → Task
put_back saved task = record task {
  sp = saved.sp;
  rp = saved.rp;
  tr0 = saved.tr0;
  io_src = saved.io_src;
  ip = 0;
  exception = record task.exception { then_callback = none; user = 0; code = saved.exception.code };
}

put_back_lem :
    (callback : ℕ → Task → Outcome Unit) (saved task : Task)
    → task.exception.then_callback ≡ none
    → (task.exception.code == e_quit) ≡ false
    → finish_restored saved (restore callback saved task)
      ≡ returns task.exception.code (put_back saved task)
unfolding finish_catch restore finish_restored
put_back_lem callback saved task plain no_quit = rw (plain, no_quit) refl

pub catch_first :
    (callback : ℕ → Task → Outcome Unit) (word : Task → Outcome Unit) (task thrown : Task)
    → task.exception.valid ≡ false
    → word (set_valid true task) ≡ throws thrown
    → catch callback word task
      ≡ finish_restored task (restore callback task (set_valid false thrown))
unfolding catch restore finish_catch finish_restored
catch_first callback word task thrown off jumps = rw (catch, off, jumps) refl

pub catch_inside :
    (callback : ℕ → Task → Outcome Unit) (word : Task → Outcome Unit) (task thrown : Task)
    → task.exception.valid ≡ true
    → word (set_valid true task) ≡ throws thrown
    → catch callback word task ≡ caught_inside callback task thrown
unfolding catch
catch_inside callback word task thrown on jumps =
    let same : set_valid true task ≡ task = ap (λ b. set_valid b task) (sym on) in
    let jumps' : word task ≡ throws thrown = sym (ap word same) ∙ jumps in simp (catch, on, jumps')

kept_inside :
    (callback : ℕ → Task → Outcome Unit) (saved task : Task)
    → (task.exception.code == e_quit) ≡ false
    → (task.exception.code == e_bye) ≡ false
    → caught_inside callback saved task ≡ finish_restored saved (restore callback saved task)
unfolding caught_inside
kept_inside callback saved task no_quit no_bye = rw (caught_inside, no_quit, no_bye) refl

-- A handler, the first or one inside another, catches what a word throws without a callback
-- while a handler is installed, QUIT and BYE apart: it returns the code of the exception, with
-- the state put back.
pub catch_lem :
    (callback : ℕ → Task → Outcome Unit) (word : Task → Outcome Unit) (task thrown : Task)
    → word (set_valid true task) ≡ throws thrown
    → thrown.exception.valid ≡ true
    → thrown.exception.then_callback ≡ none
    → thrown.exception.code ≢ e_quit
    → thrown.exception.code ≢ e_bye
    → (task' : Task) × (catch callback word task ≡ returns thrown.exception.code task')
      × IsRestored task task'
catch_lem callback word task thrown jumps on plain no_quit no_bye =
    let other : (thrown.exception.code == e_quit) ≡ false = ground arith in
    let other' : (thrown.exception.code == e_bye) ≡ false = ground arith in
    elim (Bool-cases task.exception.valid) [
      | inl inside ↦ (
        put_back task thrown,
        catch_inside callback word task thrown inside jumps
            ∙ kept_inside callback task thrown other other'
            ∙ put_back_lem callback task thrown plain other,
        (refl, refl, refl, refl, refl, refl, on ∙ sym inside, refl),
      )
      | inr first ↦ (
        put_back task (set_valid false thrown),
        catch_first callback word task thrown first jumps
            ∙ put_back_lem callback task (set_valid false thrown) plain other,
        (refl, refl, refl, refl, refl, refl, sym first, refl),
      )
    ]

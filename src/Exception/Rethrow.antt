-- ===== src/Exception/Rethrow.antt =====
-- QUIT and BYE go through every handler but the first.
use e.Base.{
  ℕ, ◌≡◌, ◌≢◌, refl, arith, ◌∙◌, true, false, ◌||◌, ◌==◌, none, ◌⊎◌, false, not, if◌then◌else◌,
}
use e.Errors.{e_quit, e_bye}
use e.Task.{Task}
use e.Exception.{
  Outcome, returns, throws, throw, catch, caught_inside, restore, finish_catch, finish_restored,
  set_valid, forget_callback,
}
use e.Exception.Handlers.{catch_inside, catch_first, throw_then_lem}

-- The word that runs another under a handler, and drops the code that the handler returns.
abbrev pub under_handler : (ℕ → Task → Outcome Unit) → (Task → Outcome Unit) → Task → Outcome Unit
under_handler callback word task = elim (catch callback word task) [
  | returns _ task' ↦ returns tt task'
  | throws task' ↦ throws task'
]

module _ (callback : ℕ → Task → Outcome Unit) (word : Task → Outcome Unit) (task thrown : Task)
    (jumps : word (set_valid true task) ≡ throws thrown) (on : thrown.exception.valid ≡ true)
    (leaves : (thrown.exception.code ≡ e_quit) ⊎ (thrown.exception.code ≡ e_bye)) where
  goes_on : caught_inside callback task thrown ≡ throws (forget_callback thrown)
  unfolding caught_inside throw
  goes_on =
      let leaving : (thrown.exception.code == e_quit || thrown.exception.code == e_bye) ≡ true =
        ground arith in
      let full : thrown.exception.code ≢ 0 = ground arith in
      let jump = (throw_then_lem thrown thrown.exception.code 0 none).2 on full in
      rw (caught_inside, leaving, jump) (rw on refl)

  -- Under a handler that is not the first, QUIT and BYE that a word throws while a handler is
  -- installed are thrown on, with the state as the word left it, but without the callback that
  -- was to run after the jump.
  pub catch_rethrows :
      task.exception.valid ≡ true → catch callback word task ≡ throws (forget_callback thrown)
  catch_rethrows inside = catch_inside callback word task thrown inside jumps ∙ goes_on

-- What the first handler puts back for QUIT and BYE: the return stack, the input source, the
-- exception code and that no handler is installed, but the parameter stack only for BYE.
abbrev pub IsLeft : Task → Task → Task → Type 0
IsLeft saved thrown task =
    (task.mem ≡ thrown.mem)
    × (thrown.exception.code ≡ e_quit → task.sp ≡ thrown.sp)
    × (thrown.exception.code ≡ e_bye → task.sp ≡ saved.sp)
    × (task.rp ≡ saved.rp)
    × (task.tr0 ≡ saved.tr0)
    × (task.io_src ≡ saved.io_src)
    × (task.ip ≡ 0)
    × (task.exception.code ≡ saved.exception.code)
    × (task.exception.valid ≡ false)
    × (task.exception.then_callback ≡ none)

-- Where a word throws QUIT or BYE under a handler inside the first one, the first returns the
-- code that was thrown, with the state put back, but for QUIT the stack pointer as the word left
-- it. No callback runs, be there one with the exception or not: memory is as the word left it.
pub catch-under_handler :
    (callback : ℕ → Task → Outcome Unit) (word : Task → Outcome Unit) (task thrown : Task)
    → task.exception.valid ≡ false
    → word (set_valid true task) ≡ throws thrown
    → thrown.exception.valid ≡ true
    → (thrown.exception.code ≡ e_quit) ⊎ (thrown.exception.code ≡ e_bye)
    → (task' : Task) × (catch callback (under_handler callback word) task
        ≡ returns thrown.exception.code task')
      × IsLeft task thrown task'
unfolding catch restore finish_catch finish_restored
catch-under_handler callback word task thrown off jumps on leaves =
    let inner = catch_rethrows callback word (set_valid true task) thrown jumps on leaves refl in
    let kept = if not (thrown.exception.code == e_quit) then task.sp else thrown.sp in
    (
      record thrown {
        sp = kept;
        rp = task.rp;
        tr0 = task.tr0;
        io_src = task.io_src;
        ip = 0;
        exception = record {
          valid = false;
          code = task.exception.code;
          then_callback = none;
          user = 0;
        };
      },
      catch_first callback (under_handler callback word) task (forget_callback thrown) off
          (rw inner refl),
      (
        refl,
        λ quits.
            (let same : (thrown.exception.code == e_quit) ≡ true = ground arith in rw same refl),
        λ byes.
            (let other : (thrown.exception.code == e_quit) ≡ false = ground arith in rw other refl),
        refl,
        refl,
        refl,
        refl,
        refl,
        refl,
        refl,
      ),
    )

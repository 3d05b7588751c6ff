-- ===== src/Evaluate/Returns.antt =====
-- e4__evaluate where nothing catches exceptions yet: it catches them itself.
use e.Base.{
  ℕ, ◌+◌, ◌-◌, ◌<◌, ◌≡◌, ◌≢◌, refl, ap, ◌∙◌, arith, true, false, not, ◌==◌, if◌then◌else◌, Option,
  none, some,
}
use e.Usize.{modulus}
use e.Errors.{e_quit}
use e.Task.{Task}
use e.Stack.{ravail, rpush}
use e.Exception.{
  Outcome, returns, throws, catch, restore, finish_catch, finish_restored, set_valid,
  forget_callback,
}
use e.Exception.Handlers.{catch_first}
use e.Execute.Words.{to_value, execute_ret}
use e.Execute.{Run}
use e.Io.Source.{sid_str}
use e.Evaluate.{
  Setting, evaluate_loop, evaluate_internal, evaluate_wrapper, execute_thunk, catch_run, with_ok,
  then_ret, source_back, set_source, evaluate,
}
use e.Evaluate.Ends.{IsSafe, loop_ends}

-- Where no handler is installed, a callback returns, and installs none: there is no handler that it
-- could jump to.
abbrev pub IsHarmless : (ℕ → Task → Outcome Unit) → Type 0
IsHarmless callback =
    (f : ℕ) (t : Task)
    → t.exception.valid ≡ false
    → (t' : Task) × (callback f t ≡ returns tt t') × (t'.exception.valid ≡ false)

-- The task in which a callback runs.
abbrev with_state : Task → Task → Task
with_state saved t = record t {
  sp = if not (t.exception.code == e_quit) then saved.sp else t.sp;
  rp = saved.rp;
  tr0 = saved.tr0;
  io_src = saved.io_src;
  ip = 0;
}

restore_returns :
    (callback : ℕ → Task → Outcome Unit)
    → IsHarmless callback
    → (saved t : Task) (then_callback : Option ℕ) → t.exception.then_callback ≡ then_callback
    → t.exception.valid ≡ false
    → (t' : Task) × (restore callback saved t ≡ returns tt t') × (t'.exception.valid ≡ false)
unfolding restore
restore_returns callback harmless saved t none e off =
    (forget_callback (with_state saved t), rw (restore, e) refl, off)
restore_returns callback harmless saved t (some f) e off =
    let called = harmless f (with_state saved t) off in
    (forget_callback called.0, simp (restore, e, called.1), called.2)

-- The first handler returns, whatever its word does.
catch_returns :
    (callback : ℕ → Task → Outcome Unit)
    → IsHarmless callback
    → (task : Task) → task.exception.valid ≡ false
    → (o : Outcome Unit)
    → (res : ℕ) × (t' : Task) × (catch callback (λ t. o) task ≡ returns res t')
      × (t'.exception.code ≡ task.exception.code)
      × (t'.exception.valid ≡ false)
unfolding finish_catch finish_restored catch
catch_returns callback harmless task off (throws thrown) =
    let back =
      restore_returns callback harmless task (set_valid false thrown) thrown.exception.then_callback
        refl refl in
    (
      back.0.exception.code,
      record back.0 { exception = record back.0.exception { code = task.exception.code } },
      catch_first callback (λ t. throws thrown) task thrown off refl
          ∙ ap (finish_restored task) back.1,
      refl,
      back.2,
    )
catch_returns callback harmless task off (returns _ done) = (
  done.exception.code,
  record done { exception = record done.exception { valid = false; code = task.exception.code } },
  rw (catch, off) refl,
  refl,
  refl,
)

-- The task in which a token is executed.
abbrev pub called : Task → Task
called t = rpush t (if not (t.ip == 0) then to_value (t.ip + 1) else 0)

thunk_ends :
    (body : Task → Run) (t : Task)
    → (ravail t == 0) ≡ false
    → (o : Outcome Unit) → body (called t) ≡ some o
    → (o' : Outcome Unit) × (execute_thunk body t ≡ some o')
unfolding execute_thunk
thunk_ends body t room (throws thrown) run = (throws thrown, rw (execute_thunk, room, run) refl)
thunk_ends body t room (returns _ done) run = (
  returns tt (if not (t.ip == 0) then done else record done { ip = 0 }),
  rw (execute_thunk, room, run) refl,
)

catch_run-catch :
    (callback : ℕ → Task → Outcome Unit) (word : Task → Run) (task : Task) (o : Outcome Unit)
    → word (set_valid true task) ≡ some o
    → catch_run callback word task ≡ some (catch callback (λ t. o) task)
unfolding catch_run
catch_run-catch callback word task o run = rw (catch_run, run) refl

module _ (s : Setting) (P : Task → Type 0) (safe : IsSafe s P) (fuel : ℕ) where
  wrapper_ends :
      (t : Task) (o : Outcome Unit)
      → evaluate_loop s fuel (set_valid true t) ≡ some o
      → (o' : Outcome Unit) × (evaluate_wrapper s 2 fuel (set_valid true t) ≡ some o')
  unfolding evaluate_wrapper evaluate_internal
  wrapper_ends t (throws thrown) run = (throws thrown, ap (λ r. then_ret s.code (with_ok r)) run)
  wrapper_ends t (returns _ done) run =
      (execute_ret s.code done, ap (λ r. then_ret s.code (with_ok r)) run)

  internal_catches :
      (t : Task)
      → t.exception.valid ≡ false
      → evaluate_internal s 3 fuel false t
        ≡ catch_run s.callback (execute_thunk (evaluate_wrapper s 2 fuel)) t
  unfolding evaluate_internal
  internal_catches t off = simp (evaluate_internal, off)

  -- Where nothing catches exceptions yet and the return stack has room, e4__evaluate of a text of
  -- `sz` bytes ends, with fuel for a round more than its bytes, and returns: no exception leaves it.
  -- The input source and the exception code are then as before, and no handler is installed. `P`,
  -- which the words of the text rely on, has to hold where the evaluation starts, and the words to
  -- be safe.
  pub evaluate_lem :
      (task : Task) (buf sz : ℕ)
      → IsHarmless s.callback
      → task.exception.valid ≡ false
      → (ravail task == 0) ≡ false
      → P (called (set_valid true (set_source buf sz task)))
      → sz ≢ sid_str
      → buf + sz < modulus - 1
      → sz < fuel
      → (res : ℕ) × (task' : Task) × (evaluate s fuel task buf sz ≡ some (returns res task'))
        × (task'.io_src ≡ task.io_src)
        × (task'.exception.code ≡ task.exception.code)
        × (task'.exception.valid ≡ false)
  unfolding evaluate evaluate_internal catch_run ravail rpush
  evaluate_lem task buf sz harmless off room p explicit low enough =
      let started = set_source buf sz task in
      let given : (sz == sid_str) ≡ false = ground arith in
      let run = loop_ends s P safe fuel (called (set_valid true started)) p low (omega arith) in
      let wrapped = wrapper_ends (called started) run.0 run.1 in
      let thunk =
        thunk_ends (evaluate_wrapper s 2 fuel) (set_valid true started) room wrapped.0 wrapped.1 in
      let caught = catch_returns s.callback harmless started off thunk.0 in
      (
        caught.0,
        record caught.1 { io_src = task.io_src },
        rw (evaluate, given)
            (ap (source_back task.io_src) (
              internal_catches started off
              ∙ catch_run-catch s.callback (execute_thunk (evaluate_wrapper s 2 fuel)) started
                  thunk.0 thunk.1
              ∙ ap some caught.2)),
        refl,
        caught.3,
        caught.4,
      )

-- ===== src/Execute/Refinement.antt =====
-- Threaded code does what it means: the interpreter, on a token in memory, has the effect of the word
-- on the parameter stack, and ends.
use e.Base.{
  ℕ, zero, suc, ◌+◌, ◌-◌, ◌≤◌, ◌<◌, ◌≡◌, ◌≢◌, inl, inr, refl, sym, arith, ap, ◌∙◌, false, ◌==◌,
  none, some, List, Option-cases,
}
use e.Task.{Task, Memory}
use e.Stack.{ravail, rpush}
use e.Stack.Contents.{contents, ravail_lem}
use e.Exception.{returns}
use e.Execute.{thread_loop, and_then}
use e.Execute.Words.{Code, to_value, to_cell, nest_thread, enter_thread, leave_thread}
use e.Execute.Meaning.{
  Word, native, variable, value, colon, Words, end, next, token, meaning, meaning_words, needs,
  needs_words, fuel_for, fuel_words, Kept, AreDistinct, kernel_code, Holds, HoldsThread,
}
use e.Execute.Leaf.{
  IsReady, Kept-trans, Kept-at, Kept-and_then, IsReady-Kept, to_cell-to_value, Called, call_native,
  call_variable, call_value,
}
use e.Execute.Step.{execute-Called, return_ip, rpush-Kept}
use e.Execute.Thread.{loop_execute, loop_nest, loop_exit}
use e.Execute.Nest.{enter_lem, leave_lem}

-- A code that can run: its pointers differ, and the token of EXIT lies below `lo` and is not threaded.
pub record IsProgram (code : Code) (lo : ℕ) (m : Memory) : Type 0 where
  pub distinct : AreDistinct (kernel_code code)
  pub exit_low : to_cell code.exit_xt < lo
  pub exit_native : m (to_cell code.exit_xt) ≢ code.threaded

-- Fuel is left behind a word.
unfoldable mutual
  unfolding fuel_for fuel_words

  pub fuel_for-le : (w : Word) (f : ℕ) → f ≤ fuel_for w f
  fuel_for-le (native _ _ _) f = omega arith
  fuel_for-le (variable _) f = omega arith
  fuel_for-le (value _ _) f = omega arith
  fuel_for-le (colon _ ws) f = omega (arith, fuel_words-le ws (suc f))

  pub fuel_words-le : (ws : Words) (f : ℕ) → f ≤ fuel_words ws f
  fuel_words-le end f = omega arith
  fuel_words-le (next w ws) f = omega (arith, fuel_for-le w (fuel_words ws f), fuel_words-le ws f)

module _ (code : Code) (lo cap : ℕ) (m : Memory) (program : IsProgram code lo m) where
  -- What the loop makes of the words in front of its pointer: with the fuel that is left it goes on
  -- from a task whose stack has the result.
  abbrev Steps : ℕ → ℕ → ℕ → Task → List ℕ → (Task → Type 0) → Type 0
  Steps fuel f d t s P =
      (t' : Task) × (thread_loop code fuel (suc d) t ≡ thread_loop code f (suc d) t')
      × (contents t' ≡ s)
      × P t'
      × Kept lo t.rp t.rp t t'

  -- A word that executes no others.
  leaf_step :
      (f d xt : ℕ) (t : Task) (s : List ℕ)
      → xt < lo
      → to_value xt ≢ code.exit_xt
      → m xt ≢ code.threaded
      → IsReady lo m cap t
      → t.ip < lo
      → t.ip ≢ 0
      → m t.ip ≡ to_value xt
      → 1 ≤ t.rp + 1 - t.rl
      → 2 ≤ f
      → ((f : ℕ) (p : Task)
          → IsReady lo m cap p
          → p.rp < p.tr0
          → contents p ≡ contents t
          → Called code lo f (m xt) p (xt + 1) s)
      → Steps (suc f) f d t s (λ t'. t'.ip ≡ t.ip + 1)
  leaf_step zero d xt t s low other plain ready ip_low ip_ne at room enough runs =
      absurd (omega arith)
  leaf_step (suc zero) d xt t s low other plain ready ip_low ip_ne at room enough runs =
      absurd (omega arith)
  leaf_step (suc (suc f)) d xt t s low other plain ready ip_low ip_ne at room enough runs =
      let ran =
        execute-Called code lo cap m f xt t s low ready room
          (λ p ready' full same below bound. runs f p ready' full same) in
      let at' : t.mem t.ip ≡ to_value xt = ready.code_same t.ip ip_low ∙ at in
      let native' : t.mem xt ≢ code.threaded = rw (ready.code_same xt low) plain in
      let valid : (t.ip == 0) ≡ false = ground arith in
      let after : return_ip t.ip ≡ t.ip + 1 = rw valid refl in
      (
        ran.0,
        loop_execute code (suc (suc f)) d xt t ran.0 at' native' other ran.1,
        ran.2,
        ran.3 ∙ after,
        ran.4,
      )

  -- A thread that is entered from a task with a return address, once its words have run.
  pub thread_left :
      (p t : Task) (user : ℕ)
      → IsReady lo m cap p
      → p.rp < p.tr0
      → ravail p ≢ 0
      → Kept lo (enter_thread p user).rp (enter_thread p user).rp (enter_thread p user) t
      → (t' : Task) × (leave_thread code t ≡ returns tt t')
        × (contents t' ≡ contents t)
        × (t'.ip ≡ to_cell (p.mem (p.rp + 1)))
        × Kept lo (p.rp + 1) (p.rp + 1) p t'
  thread_left p t user ready full room kept =
      let entered = enter_lem lo cap m p user ready room in
      let ok = ready.coherent in
      leave_lem code lo p (enter_thread p user) t ok full (omega (arith, ravail_lem p ok.4))
        entered.0 kept

  nest_eq :
      (t : Task) (xt : ℕ)
      → to_cell ((rpush (rpush t (to_value (t.ip + 1))) (to_value t.tr0)).mem t.ip) ≡ xt
      → nest_thread t ≡ enter_thread (rpush t (to_value (t.ip + 1))) (xt + 1)
  unfolding nest_thread enter_thread rpush
  nest_eq t xt h =
      let q : Task = rpush (rpush t (to_value (t.ip + 1))) (to_value t.tr0) in
      ap (λ (n : ℕ). record q { tr0 = q.rp; ip = n }) (omega (arith, h))

  -- A nested colon definition is entered: the return address is pushed, then a thread is entered.
  nested :
      (t : Task) (xt : ℕ)
      → IsReady lo m cap t
      → t.ip < lo
      → m t.ip ≡ to_value xt
      → 2 ≤ t.rp + 1 - t.rl
      → let p = rpush t (to_value (t.ip + 1)) in
        (nest_thread t ≡ enter_thread p (xt + 1))
        × IsReady lo m cap p
        × (p.rp < p.tr0)
        × (ravail p ≢ 0)
        × (contents p ≡ contents t)
        × (to_cell (p.mem (p.rp + 1)) ≡ t.ip + 1)
        × Kept lo t.rp (t.rp - 1) t p
        × (p.rp + 1 ≡ t.rp)
  nested t xt ready ip_low at room =
      let ok = ready.coherent in
      let v = to_value (t.ip + 1) in
      let p = rpush t v in
      let free : ravail t ≢ 0 = omega (arith, ravail_lem t ok.4) in
      let pushed = rpush-Kept lo t v ok ready.above free in
      let k = pushed.0 in
      let ready' = IsReady-Kept lo t.rp (t.rp - 1) m cap t p ready k in
      let rp' = k.rp_same in
      let tr0' = k.tr0_same in
      let rl' = k.rl_same in
      let free' : ravail p ≢ 0 = omega (arith, ravail_lem p k.coherent.4) in
      let pushed' = rpush-Kept lo p (to_value t.tr0) k.coherent ready'.above free' in
      let below : p.rp + 1 ≡ t.rp = omega arith in
      (
        nest_eq t xt (
            ap to_cell (
              pushed'.0.low_same t.ip ip_low
              ∙ k.low_same t.ip ip_low
              ∙ ready.code_same t.ip ip_low
              ∙ at)
            ∙ to_cell-to_value xt),
        ready',
        omega arith,
        free',
        pushed.1,
        ap to_cell (ap p.mem below ∙ pushed.2) ∙ to_cell-to_value (t.ip + 1),
        k,
        below,
      )

  mutual
    unfolding meaning needs fuel_for

    run_word :
        (w : Word) (f d : ℕ) (t : Task) (s : List ℕ)
        → Holds code lo m w
        → IsReady lo m cap t
        → t.ip < lo
        → t.ip ≢ 0
        → m t.ip ≡ to_value (token w)
        → needs w ≤ t.rp + 1 - t.rl
        → 2 ≤ f
        → meaning cap w (contents t) ≡ some s
        → Steps (fuel_for w f) f d t s (λ t'. t'.ip ≡ t.ip + 1)
    run_word (native xt c effect) f d t s held ready ip_low ip_ne at room enough means =
        leaf_step f d xt t s held.0 held.1 (rw held.2 (held.3.0)) ready ip_low ip_ne at room enough
          (λ f' p ready' full same. rw held.2 (
            call_native code program.distinct lo cap m f' xt c effect p s held ready' full
              (rw same means)))
    run_word (variable xt) f d t s held ready ip_low ip_ne at room enough means =
        leaf_step f d xt t s held.0 held.1
          (rw held.2 (λ e. program.distinct.0.1.1.1.1.1.1.1.0 (sym e))) ready ip_low ip_ne at room
          enough
          (λ f' p ready' full same.
            rw held.2
              (call_variable code program.distinct lo cap m f' xt p s ready' full (rw same means)))
    run_word (value xt v) f d t s held ready ip_low ip_ne at room enough means =
        leaf_step f d xt t s (let low = held.0 in omega arith) held.1
          (rw held.2 (λ e. program.distinct.0.1.1.1.1.1.1.0 (sym e))) ready ip_low ip_ne at room
          enough
          (λ f' p ready' full same. rw held.2 (
            call_value code program.distinct lo cap m f' xt v p s held ready' full (rw same means)))
    run_word (colon xt ws) f d t s held ready ip_low ip_ne at room enough means =
        let ok = ready.coherent in
        let p = rpush t (to_value (t.ip + 1)) in
        let n = nested t xt ready ip_low at (omega arith) in
        let entered = enter_lem lo cap m p (xt + 1) n.1 n.3 in
        let e = enter_thread p (xt + 1) in
        let rp' = entered.0.rp_base in
        let rl' = entered.0.rl_same in
        let rl'' = n.6.rl_same in
        let below = n.7 in
        let ran =
          run_words ws (xt + 2) (suc f) (suc d) e s held.3 entered.1 (entered.3 ∙ omega arith)
            (omega arith) (omega arith) (omega arith) (rw (entered.2 ∙ n.4) means) in
        let left = thread_left p ran.0 (xt + 1) n.1 n.2 n.3 ran.4 in
        let at' : t.mem t.ip ≡ to_value xt = ready.code_same t.ip ip_low ∙ at in
        let native' : ran.0.mem (to_cell code.exit_xt) ≢ code.threaded =
          rw (ran.4.low_same _ program.exit_low ∙ entered.1.code_same _ program.exit_low)
            program.exit_native in
        (
          left.0,
          loop_nest code (fuel_words ws (suc f)) d xt t at' (ready.code_same xt held.0 ∙ held.2)
                (omega (arith, ravail_lem t ok.4))
              ∙ ap (thread_loop code (fuel_words ws (suc f)) (suc (suc d))) n.0
              ∙ ran.1
              ∙ loop_exit code f d ran.0 ran.3 native'
              ∙ ap (λ o. and_then (some o) (thread_loop code f (suc d))) left.1,
          left.2 ∙ ran.2,
          left.3 ∙ n.5,
          Kept-trans lo t.rp t.rp (t.rp - 1) t.rp t p left.0 (omega arith) n.6
              (Kept-at lo (p.rp + 1) t.rp p left.0 n.7 left.4),
        )

    pub run_words :
        (ws : Words) (a f d : ℕ) (t : Task) (s : List ℕ)
        → HoldsThread code lo m a ws
        → IsReady lo m cap t
        → t.ip ≡ a
        → a ≢ 0
        → needs_words ws ≤ t.rp + 1 - t.rl
        → 2 ≤ f
        → meaning_words cap ws (contents t) ≡ some s
        → Steps (fuel_words ws f) f d t s (λ t'. t'.mem t'.ip ≡ code.exit_xt)
    run_words end a f d t s held ready ip ne room enough means = (
      t,
      refl,
      cc,
      rw ip (ready.code_same a held.0 ∙ held.1),
      record {
        coherent = ready.coherent;
        sl_same = refl;
        s0_same = refl;
        rl_same = refl;
        tr0_same = refl;
        rp_same = refl;
        low_same = λ b h. refl;
        high_same = λ b h. refl;
      },
    )
    run_words (next w ws) a f d t s held ready ip ne room enough means =
        elim (Option-cases (meaning cap w (contents t))) [
          | inl undefined ↦ let bad : none ≡ some s = rw undefined at means in cc
          | inr (s₁, defined) ↦
              let onward : meaning_words cap ws s₁ ≡ some s = rw defined at means in
              let first =
                run_word w (fuel_words ws f) d t s₁ held.2 ready (rw ip held.0) (rw ip ne)
                  (rw ip held.1) (ground arith) (omega (arith, fuel_words-le ws f)) defined in
              let k = first.4 in
              let rp' = k.rp_same in
              let rl' = k.rl_same in
              let rest =
                run_words ws (a + 1) f d first.0 s held.3
                  (IsReady-Kept lo t.rp t.rp m cap t first.0 ready k)
                  (first.3 ∙ ap (λ (n : ℕ). n + 1) ip) (omega arith) (ground arith) enough
                  (rw first.2 onward) in
              (rest.0, first.1 ∙ rest.1, rest.2, rest.3, Kept-and_then lo t first.0 rest.0 k rest.4)
        ]

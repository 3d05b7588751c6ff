-- ===== src/Execute/Step.antt =====
-- One step of the interpreter: what e4__execute makes of a word that executes no others, and how a
-- nested thread is entered and left.
use e.Base.{
  ℕ, suc, ◌+◌, ◌-◌, ◌≤◌, ◌<◌, ◌≡◌, ◌≢◌, inl, inr, refl, arith, ap, ◌∙◌, false, not, ◌==◌, some,
  List, if◌then◌else◌, Bool-cases,
}
use e.Task.{Task, Memory}
use e.Stack.{ravail, rpush}
use e.Stack.Contents.{contents, IsCoherent, ravail_lem, store_same, store_other, cells-store_above}
use e.Exception.{returns}
use e.Execute.{execute, call}
use e.Execute.Words.{Code, to_value, to_cell}
use e.Execute.Meaning.{Kept}
use e.Execute.Leaf.{IsReady, Kept-trans, Kept-at, IsReady-Kept, to_cell-to_value, Called}

-- Pushing on the return stack where there is room.
pub rpush-Kept :
    (lo : ℕ) (t : Task) (v : ℕ)
    → IsCoherent t
    → lo ≤ t.sl
    → ravail t ≢ 0
    → Kept lo t.rp (t.rp - 1) t (rpush t v)
      × (contents (rpush t v) ≡ contents t)
      × ((rpush t v).mem t.rp ≡ v)
unfolding rpush contents
rpush-Kept lo t v ok low room =
    let free : ravail t ≡ t.rp + 1 - t.rl = ravail_lem t ok.4 in
    (
      record {
        coherent = omega arith;
        sl_same = refl;
        s0_same = refl;
        rl_same = refl;
        tr0_same = refl;
        rp_same = refl;
        low_same = λ a h. store_other t.mem t.rp v a (omega arith);
        high_same = λ a h. store_other t.mem t.rp v a (omega arith);
      },
      cells-store_above t.mem t.rp v (t.sp + 1) (t.s0 - t.sp) (omega arith),
      store_same t.mem t.rp v,
    )

-- Where e4__execute returns to.
abbrev pub return_ip : ℕ → ℕ
return_ip ip = if not (ip == 0) then ip + 1 else 0

module _ (code : Code) (lo cap : ℕ) (m : Memory) where
  -- The call of a code with a return address pushed.
  Called-push :
      (f xt : ℕ) (t : Task) (s : List ℕ) (v : ℕ)
      → xt < lo
      → IsReady lo m cap t
      → 1 ≤ t.rp + 1 - t.rl
      → ((p : Task)
          → IsReady lo m cap p
          → p.rp < p.tr0
          → contents p ≡ contents t
          → p.rp + 1 ≡ t.rp
          → p.rl ≡ t.rl
          → Called code lo f (m xt) p (xt + 1) s)
      → (p' : Task) × (call code (suc f) ((rpush t v).mem xt) (rpush t v) (xt + 1)
          ≡ some (returns tt p'))
        × (contents p' ≡ s)
        × (p'.ip ≡ to_cell v)
        × Kept lo t.rp t.rp t p'
  Called-push f xt t s v low ready room runs =
      let ok = ready.coherent in
      let free : ravail t ≢ 0 = omega (arith, ravail_lem t ok.4) in
      let pushed = rpush-Kept lo t v ok ready.above free in
      let kept = pushed.0 in
      let p = rpush t v in
      let below : p.rp + 1 ≡ t.rp = let same = kept.rp_same in omega arith in
      let code_at : p.mem xt ≡ m xt = kept.low_same xt low ∙ ready.code_same xt low in
      let full : p.rp < p.tr0 =
        let same = kept.rp_same in let base = kept.tr0_same in omega arith in
      let ran =
        runs p (IsReady-Kept lo t.rp (t.rp - 1) m cap t p ready kept) full pushed.1 below
          kept.rl_same in
      (
        ran.0,
        ap (λ c. call code (suc f) c p (xt + 1)) code_at ∙ ran.1,
        ran.2,
        ran.3 ∙ ap to_cell (ap p.mem below ∙ pushed.2),
        Kept-trans lo t.rp t.rp (t.rp - 1) t.rp t p ran.0 (omega arith) kept
            (Kept-at lo (p.rp + 1) t.rp p ran.0 below ran.4),
      )

  -- A word whose code does its work when it is called with the return address pushed.
  pub execute-Called :
      (f xt : ℕ) (t : Task) (s : List ℕ)
      → xt < lo
      → IsReady lo m cap t
      → 1 ≤ t.rp + 1 - t.rl
      → ((p : Task)
          → IsReady lo m cap p
          → p.rp < p.tr0
          → contents p ≡ contents t
          → p.rp + 1 ≡ t.rp
          → p.rl ≡ t.rl
          → Called code lo f (m xt) p (xt + 1) s)
      → (t' : Task) × (execute code (suc (suc f)) t xt ≡ some (returns tt t'))
        × (contents t' ≡ s)
        × (t'.ip ≡ return_ip t.ip)
        × Kept lo t.rp t.rp t t'
  unfolding execute
  execute-Called f xt t s low ready room runs =
      let free : (ravail t == 0) ≡ false =
        let ok = ready.coherent in ground (arith, ravail_lem t ok.4) in
      elim (Bool-cases (t.ip == 0)) [
        | inl null ↦
            let ran = Called-push f xt t s 0 low ready room runs in
            (
              record ran.0 { ip = 0 },
              rw (execute, free, null, ran.1) refl,
              unfold contents in ran.2,
              rw null refl,
              unmoved ran.4,
            )
        | inr valid ↦
            let ran = Called-push f xt t s (to_value (t.ip + 1)) low ready room runs in
            (
              ran.0,
              rw (execute, free, valid, ran.1) refl,
              ran.2,
              rw valid (ran.3 ∙ to_cell-to_value (t.ip + 1)),
              ran.4,
            )
      ]
    where
      unmoved : {p : Task} → Kept lo t.rp t.rp t p → Kept lo t.rp t.rp t (record p { ip = 0 })
      unmoved k = record {
        coherent = k.coherent;
        sl_same = k.sl_same;
        s0_same = k.s0_same;
        rl_same = k.rl_same;
        tr0_same = k.tr0_same;
        rp_same = k.rp_same;
        low_same = k.low_same;
        high_same = k.high_same;
      }

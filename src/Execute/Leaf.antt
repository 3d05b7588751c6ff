-- ===== src/Execute/Leaf.antt =====
-- Words that execute no others: what e4__execute makes of them.
use e.Base.{
  ℕ, suc, ◌+◌, ◌-◌, ◌≤◌, ◌<◌, ◌≡◌, ◌≢◌, inl, inr, refl, arith, ap, ◌∙◌, false, leb, ltb, ◌==◌,
  Option, none, some, List, ◌∷◌, length, Bool-cases, leb→le,
}
use e.Task.{Task, Memory}
use e.Stack.{avail, rdepth, push, rpop}
use e.Stack.Contents.{
  contents, IsCoherent, avail_lem, rdepth_lem, pop-push, store_other, length-cells,
}
use e.Exception.{returns}
use e.Execute.{call, run_other, kind_of}
use e.Execute.Words.{
  Code, to_value, to_cell, execute_ret, push_and_ret, execute_variable, execute_value, pop_ip,
}
use e.Execute.Meaning.{native, value, bounded, Kept, AreDistinct, kernel_code, Holds}

pub to_cell-to_value : (p : ℕ) → to_cell (to_value p) ≡ p
to_cell-to_value p = omega arith

-- A task in which the interpreter can run: its stacks are in order, above the dictionary, which is
-- that of `m` below `lo`.
pub record IsReady (lo : ℕ) (m : Memory) (cap : ℕ) (t : Task) : Type 0 where
  pub coherent : IsCoherent t
  pub above : lo ≤ t.sl
  pub cap_same : t.s0 + 1 - t.sl ≡ cap
  pub code_same : (a : ℕ) → a < lo → t.mem a ≡ m a

pub Kept-trans :
    (lo top top' r r' : ℕ) (t t' t'' : Task)
    → top ≤ top'
    → Kept lo top r t t'
    → Kept lo top' r' t' t''
    → Kept lo top' r' t t''
Kept-trans lo top top' r r' t t' t'' le k k' = record {
  coherent = k'.coherent;
  sl_same = k'.sl_same ∙ k.sl_same;
  s0_same = k'.s0_same ∙ k.s0_same;
  rl_same = k'.rl_same ∙ k.rl_same;
  tr0_same = k'.tr0_same ∙ k.tr0_same;
  rp_same = k'.rp_same;
  low_same = λ a h. k'.low_same a h ∙ k.low_same a h;
  high_same = λ a h. k'.high_same a h ∙ k.high_same a (omega arith);
}

pub Kept-at : (lo r r' : ℕ) (t t' : Task) → r ≡ r' → Kept lo r r t t' → Kept lo r' r' t t'
Kept-at lo r r' t t' e k = rw (← e) k

pub Kept-and_then :
    (lo : ℕ) (t u v : Task) → Kept lo t.rp t.rp t u → Kept lo u.rp u.rp u v → Kept lo t.rp t.rp t v
Kept-and_then lo t u v k k' =
    Kept-trans lo t.rp t.rp t.rp t.rp t u v (omega arith) k (Kept-at lo u.rp t.rp u v k.rp_same k')

pub IsReady-Kept :
    (lo top r : ℕ) (m : Memory) (cap : ℕ) (t t' : Task)
    → IsReady lo m cap t
    → Kept lo top r t t'
    → IsReady lo m cap t'
IsReady-Kept lo top r m cap t t' ok k = record {
  coherent = k.coherent;
  above = let same = k.sl_same in let low = ok.above in omega arith;
  cap_same = let same = k.sl_same in let same' = k.s0_same in let size = ok.cap_same in omega arith;
  code_same = λ a h. k.low_same a h ∙ ok.code_same a h;
}

-- Returning on a return stack that is not empty.
pub ret_lem :
    (code : Code) (lo : ℕ) (t : Task)
    → IsCoherent t
    → t.rp < t.tr0
    → (execute_ret code t ≡ returns tt (pop_ip t))
      × (contents (pop_ip t) ≡ contents t)
      × ((pop_ip t).ip ≡ to_cell (t.mem (t.rp + 1)))
      × Kept lo (t.rp + 1) (t.rp + 1) t (pop_ip t)
unfolding execute_ret pop_ip rpop contents
ret_lem code lo t ok full =
    let deep : ltb (rdepth t) 1 ≡ false = ground (arith, rdepth_lem t ok.5) in
    (
      rw deep refl,
      refl,
      refl,
      record {
        coherent = omega arith;
        sl_same = refl;
        s0_same = refl;
        rl_same = refl;
        tr0_same = refl;
        rp_same = refl;
        low_same = λ a h. refl;
        high_same = λ a h. refl;
      },
    )

pub push-Kept :
    (lo : ℕ) (t : Task) (v : ℕ)
    → IsCoherent t
    → lo ≤ t.sl
    → avail t ≢ 0
    → Kept lo t.rp t.rp t (push t v)
unfolding push
push-Kept lo t v ok low room =
    let free : avail t ≡ t.sp + 1 - t.sl = avail_lem t ok.1 in
    record {
      coherent = omega arith;
      sl_same = refl;
      s0_same = refl;
      rl_same = refl;
      tr0_same = refl;
      rp_same = refl;
      low_same = λ a h. store_other t.mem t.sp v a (omega arith);
      high_same = λ a h. store_other t.mem t.sp v a (omega arith);
    }

-- Pushing a value with room for it and returning, on a return stack that is not empty.
pub push_and_ret_lem :
    (code : Code) (lo : ℕ) (t : Task) (v : ℕ)
    → IsCoherent t
    → lo ≤ t.sl
    → t.rp < t.tr0
    → length (v ∷ contents t) ≤ t.s0 + 1 - t.sl
    → (t' : Task) × (push_and_ret code t v ≡ returns tt t')
      × (contents t' ≡ v ∷ contents t)
      × (t'.ip ≡ to_cell (t.mem (t.rp + 1)))
      × Kept lo (t.rp + 1) (t.rp + 1) t t'
unfolding push_and_ret
push_and_ret_lem code lo t v ok low full fits =
    let size : length (contents t) ≡ t.s0 - t.sp =
      unfold contents in length-cells t.mem (t.sp + 1) (t.s0 - t.sp) in
    let room : avail t ≢ 0 = omega (arith, avail_lem t ok.1) in
    let some_room : (avail t == 0) ≡ false = ground arith in
    let kept = push-Kept lo t v ok low room in
    let back = ret_lem code lo (push t v) kept.coherent (unfold push in full) in
    (
      pop_ip (push t v),
      rw some_room back.0,
      back.1 ∙ (pop-push t v ok room).0,
      back.2
          ∙ ap to_cell (
              ap (push t v).mem (ap (λ (n : ℕ). n + 1) kept.rp_same)
              ∙ kept.high_same (t.rp + 1) (omega arith)),
      Kept-trans lo t.rp (t.rp + 1) t.rp (t.rp + 1) t (push t v) (pop_ip (push t v)) (omega arith)
          kept (unfold push in back.3),
    )

pub bounded-eq-some :
    (cap : ℕ) (o : Option (List ℕ)) (s : List ℕ)
    → bounded cap o ≡ some s
    → (o ≡ some s) × (length s ≤ cap)
unfolding bounded
bounded-eq-some cap none s h = cc
bounded-eq-some cap (some s') s h = elim (Bool-cases (leb (length s') cap)) [
  | inl fits ↦
      let same : some s' ≡ some s = rw fits at h in
      let same' : s' ≡ s = cc in (same, rw (← same') (leb→le (length s') cap fits))
  | inr wide ↦ let bad : none ≡ some s = rw wide at h in cc
]

-- What the code of a word that executes no others does when it is called.
abbrev pub Called : Code → ℕ → ℕ → ℕ → Task → ℕ → List ℕ → Type 0
Called code lo f c t user s =
    (t' : Task) × (call code (suc f) c t user ≡ some (returns tt t'))
    × (contents t' ≡ s)
    × (t'.ip ≡ to_cell (t.mem (t.rp + 1)))
    × Kept lo (t.rp + 1) (t.rp + 1) t t'

module _ (code : Code) (distinct : AreDistinct (kernel_code code)) (lo cap : ℕ) (m : Memory) where
  pub call_native :
      (f xt c : ℕ) (effect : List ℕ → Option (List ℕ)) (t : Task) (s : List ℕ)
      → Holds code lo m (native xt c effect)
      → IsReady lo m cap t
      → t.rp < t.tr0
      → bounded cap (effect (contents t)) ≡ some s
      → Called code lo f c t (xt + 1) s
  call_native f xt c effect t s held ready full means =
      let defined = bounded-eq-some cap (effect (contents t)) s means in
      let fits : length s ≤ t.s0 + 1 - t.sl = rw ready.cap_same defined.1 in
      let ran = held.4 t (xt + 1) s ready.coherent ready.above full defined.0 fits in
      (ran.0, runs ∙ ran.1, ran.2, ran.3, ran.4)
    where
      runs : call code (suc f) c t (xt + 1) ≡ code.native c t (xt + 1)
      runs = unfold call kind_of run_other in ground (arith, held.3)

  pub call_variable :
      (f xt : ℕ) (t : Task) (s : List ℕ)
      → IsReady lo m cap t
      → t.rp < t.tr0
      → bounded cap (some (to_value (xt + 2) ∷ contents t)) ≡ some s
      → Called code lo f code.variable t (xt + 1) s
  call_variable f xt t s ready full means =
      let defined = bounded-eq-some cap _ s means in
      let pushed : to_value (xt + 2) ∷ contents t ≡ s = cc (defined.0) in
      let fits : length (to_value (xt + 2) ∷ contents t) ≤ t.s0 + 1 - t.sl =
        let size = ap length pushed in
        let room = ready.cap_same in let small = defined.1 in omega arith in
      let next_cell : to_value (xt + 1 + 1) ≡ to_value (xt + 2) = omega arith in
      let ran =
        push_and_ret_lem code lo t (to_value (xt + 2)) ready.coherent ready.above full fits in
      (
        ran.0,
        runs ∙ ap some (ap (push_and_ret code t) next_cell ∙ ran.1),
        ran.2 ∙ pushed,
        ran.3,
        ran.4,
      )
    where
      runs :
          call code (suc f) code.variable t (xt + 1)
          ≡ some (push_and_ret code t (to_value (xt + 1 + 1)))
      runs = unfold call kind_of run_other execute_variable in ground (arith, distinct)

  pub call_value :
      (f xt v : ℕ) (t : Task) (s : List ℕ)
      → Holds code lo m (value xt v)
      → IsReady lo m cap t
      → t.rp < t.tr0
      → bounded cap (some (v ∷ contents t)) ≡ some s
      → Called code lo f code.value t (xt + 1) s
  call_value f xt v t s held ready full means =
      let defined = bounded-eq-some cap _ s means in
      let pushed : v ∷ contents t ≡ s = cc (defined.0) in
      let fits : length (v ∷ contents t) ≤ t.s0 + 1 - t.sl =
        let size = ap length pushed in
        let room = ready.cap_same in let small = defined.1 in omega arith in
      let holds : t.mem (xt + 1 + 1) ≡ v =
        ap t.mem (omega arith) ∙ ready.code_same (xt + 2) held.0 ∙ held.3 in
      let ran = push_and_ret_lem code lo t v ready.coherent ready.above full fits in
      (ran.0, runs ∙ ap some (ap (push_and_ret code t) holds ∙ ran.1), ran.2 ∙ pushed, ran.3, ran.4)
    where
      runs :
          call code (suc f) code.value t (xt + 1) ≡ some (push_and_ret code t (t.mem (xt + 1 + 1)))
      runs = unfold call kind_of run_other execute_value in ground (arith, distinct)

-- ===== src/Builtin/Effects.antt =====
-- Builtin words as effects on the parameter stack, in the form that the interpreter asks for.
use e.Base.{
  ℕ, suc, ◌+◌, ◌-◌, ◌%◌, ◌≤◌, ◌<◌, ◌≡◌, ◌≢◌, refl, sym, arith, ap, ◌∙◌, false, ltb, Option, none,
  some, List, [], ◌∷◌, length,
}
use e.Usize.{modulus}
use e.Task.{Task}
use e.Stack.{avail, depth, push, pop, dup}
use e.Stack.Contents.{
  contents, IsCoherent, avail_lem, depth_lem, pop-push, pop-contents, length-cells,
}
use e.Exception.{Outcome, returns}
use e.Builtin.{builtin_dup, builtin_plus, expect_depth, expect_avail}
use e.Execute.Words.{Code, to_cell, execute_ret, pop_ip}
use e.Execute.Meaning.{Kept, Implements}
use e.Execute.Leaf.{Kept-trans, Kept-and_then, ret_lem, push-Kept}

abbrev pub dup_effect : List ℕ → Option (List ℕ)
dup_effect (a ∷ s) = some (a ∷ a ∷ s)
dup_effect [] = none

abbrev pub drop_effect : List ℕ → Option (List ℕ)
drop_effect (a ∷ s) = some s
drop_effect [] = none

abbrev pub plus_effect : List ℕ → Option (List ℕ)
plus_effect (r ∷ l ∷ s) = some ((l + r) % modulus ∷ s)
plus_effect (r ∷ []) = none
plus_effect [] = none

-- An operation on the stack in front of a return.
returned :
    (code : Code) (lo : ℕ) (t u : Task) (s : List ℕ)
    → t.rp < t.tr0
    → Kept lo t.rp t.rp t u
    → contents u ≡ s
    → (t' : Task) × (execute_ret code u ≡ returns tt t')
      × (contents t' ≡ s)
      × (t'.ip ≡ to_cell (t.mem (t.rp + 1)))
      × Kept lo (t.rp + 1) (t.rp + 1) t t'
returned code lo t u s full k e =
    let rp' = k.rp_same in
    let base' = k.tr0_same in
    let back = ret_lem code lo u k.coherent (omega arith) in
    let above : u.rp + 1 ≡ t.rp + 1 = omega arith in
    (
      pop_ip u,
      back.0,
      back.1 ∙ e,
      back.2 ∙ ap to_cell (ap u.mem above ∙ k.high_same (t.rp + 1) (omega arith)),
      Kept-trans lo t.rp (t.rp + 1) t.rp (t.rp + 1) t u (pop_ip u) (omega arith) k
          (at_top u (pop_ip u) above back.3),
    )
  where
    at_top :
        (u v : Task)
        → u.rp + 1 ≡ t.rp + 1
        → Kept lo (u.rp + 1) (u.rp + 1) u v
        → Kept lo (t.rp + 1) (t.rp + 1) u v
    at_top u v same k = record {
      coherent = k.coherent;
      sl_same = k.sl_same;
      s0_same = k.s0_same;
      rl_same = k.rl_same;
      tr0_same = k.tr0_same;
      rp_same = k.rp_same ∙ same;
      low_same = k.low_same;
      high_same = λ a h. k.high_same a (omega arith);
    }

pop-Kept : (lo : ℕ) (t : Task) → IsCoherent t → depth t ≢ 0 → Kept lo t.rp t.rp t (pop t).task
unfolding pop
pop-Kept lo t ok deep =
    let d : depth t ≡ t.s0 - t.sp = depth_lem t ok.2 in
    record {
      coherent = omega arith;
      sl_same = refl;
      s0_same = refl;
      rl_same = refl;
      tr0_same = refl;
      rp_same = refl;
      low_same = λ a h. refl;
      high_same = λ a h. refl;
    }

-- The depth is the length of the contents.
depth-contents : (t : Task) → IsCoherent t → depth t ≡ length (contents t)
unfolding contents
depth-contents t ok = depth_lem t ok.2 ∙ sym (length-cells t.mem (t.sp + 1) (t.s0 - t.sp))

-- The first two cells of the stack, and the tests of the words.
module _ (code : Code) (t : Task) (ok : IsCoherent t) where
  top_cell :
      (a : ℕ) (xs : List ℕ)
      → contents t ≡ a ∷ xs
      → ((pop t).cell ≡ a) × (contents (pop t).task ≡ xs) × (depth t ≢ 0)
  top_cell a xs same =
      let deep : depth t ≡ suc (length xs) = depth-contents t ok ∙ ap length same in
      let popped = (pop-contents t ok (omega arith)).0 in
      (cc (popped, same), cc (popped, same), omega arith)

  deep_enough :
      (n : ℕ) (rest : Outcome Unit) → n ≤ length (contents t) → expect_depth code t n rest ≡ rest
  deep_enough n rest le =
      unfold expect_depth in
      (let test : ltb (depth t) n ≡ false = ground (arith, depth-contents t ok) in rw test refl)

  room_enough :
      (rest : Outcome Unit)
      → length (contents t) + 1 ≤ t.s0 + 1 - t.sl
      → expect_avail code t 1 rest ≡ rest
  room_enough rest le =
      unfold expect_avail in
      (let test : ltb (avail t) 1 ≡ false =
          ground (arith, avail_lem t ok.1, depth-contents t ok, depth_lem t ok.2) in
        rw test refl)

-- What a word has to do in an Implements, for the case in which its effect is defined.
abbrev Done : Code → ℕ → ℕ → Task → ℕ → List ℕ → Type 0
Done code lo c t user s =
    (t' : Task) × (code.native c t user ≡ some (returns tt t'))
    × (contents t' ≡ s)
    × (t'.ip ≡ to_cell (t.mem (t.rp + 1)))
    × Kept lo (t.rp + 1) (t.rp + 1) t t'

module _ (code : Code) (lo c : ℕ) where
  pub dup-Implements :
      ((task : Task) (user : ℕ) → code.native c task user ≡ some (builtin_dup code task))
      → Implements code lo c dup_effect
  dup-Implements native t user s ok low full effect fits = with_contents (contents t) refl effect
    where
      same_dup : dup t ≡ push t (t.mem (t.sp + 1))
      same_dup = unfold dup push in refl

      with_contents :
          (xs : List ℕ) → contents t ≡ xs → dup_effect xs ≡ some s → Done code lo c t user s
      with_contents [] same h = cc
      with_contents (a ∷ xs) same h =
          let result : a ∷ a ∷ xs ≡ s = cc in
          let size = ap length result in
          let size' = ap length same in
          let room : avail t ≢ 0 =
            omega (arith, avail_lem t ok.1, depth-contents t ok, depth_lem t ok.2) in
          let v = t.mem (t.sp + 1) in
          let cell : v ≡ a = unfold pop in (top_cell code t ok a xs same).0 in
          let pushed : contents (push t v) ≡ s =
            (pop-push t v ok room).0 ∙ cc (cell, same, result) in
          let done = returned code lo t (push t v) s full (push-Kept lo t v ok low room) pushed in
          (
            done.0,
            native t user
                ∙ ap some (
                    unfold builtin_dup in
                    (deep_enough code t ok 1 _ (omega arith)
                      ∙ room_enough code t ok _ (omega arith)
                      ∙ ap (execute_ret code) same_dup
                      ∙ done.1)),
            done.2,
            done.3,
            done.4,
          )

  pub plus-Implements :
      ((task : Task) (user : ℕ) → code.native c task user ≡ some (builtin_plus code task))
      → Implements code lo c plus_effect
  plus-Implements native t user s ok low full effect fits = with_contents (contents t) refl effect
    where
      with_contents :
          (xs : List ℕ) → contents t ≡ xs → plus_effect xs ≡ some s → Done code lo c t user s
      with_contents [] same h = cc
      with_contents (a ∷ []) same h = cc
      with_contents (r ∷ l ∷ xs) same h =
          let result : (l + r) % modulus ∷ xs ≡ s = cc in
          let first = top_cell code t ok r (l ∷ xs) same in
          let k = pop-Kept lo t ok first.2 in
          let t₁ = (pop t).task in
          let second = top_cell code t₁ k.coherent l xs first.1 in
          let k' = pop-Kept lo t₁ k.coherent second.2 in
          let t₂ = (pop t₁).task in
          let v = ((pop t₁).cell + (pop t).cell) % modulus in
          let size = ap length second.1 in
          let size' = ap length same in
          let room : avail t₂ ≢ 0 =
            let sl' = k.sl_same in
            let sl'' = k'.sl_same in
            let s0' = k.s0_same in
            let s0'' = k'.s0_same in
            let size'' = ap length result in
            omega (
              arith,
              avail_lem t₂ k'.coherent.1,
              depth-contents t₂ k'.coherent,
              depth_lem t₂ k'.coherent.2,
            ) in
          let low₂ : lo ≤ t₂.sl = let sl' = k.sl_same in let sl'' = k'.sl_same in omega arith in
          let pushed : contents (push t₂ v) ≡ s =
            (pop-push t₂ v k'.coherent room).0 ∙ cc (first.0, second.0, second.1, result) in
          let done =
            returned code lo t (push t₂ v) s full
              (Kept-and_then lo t t₂ (push t₂ v) (Kept-and_then lo t t₁ t₂ k k')
                (push-Kept lo t₂ v k'.coherent low₂ room))
              pushed in
          (
            done.0,
            native t user
                ∙ ap some
                    (unfold builtin_plus in (deep_enough code t ok 2 _ (omega arith) ∙ done.1)),
            done.2,
            done.3,
            done.4,
          )

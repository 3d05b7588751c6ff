-- ===== src/Execute/Nest.antt =====
-- Entering a thread and leaving it again.
use e.Base.{ℕ, ◌+◌, ◌-◌, ◌≤◌, ◌<◌, ◌≡◌, ◌≢◌, refl, arith, ap, ◌∙◌, true, ◌==◌}
use e.Task.{Task, Memory}
use e.Stack.{ravail, rpop}
use e.Stack.Contents.{contents, IsCoherent}
use e.Exception.{returns}
use e.Execute.Words.{Code, to_value, to_cell, enter_thread, leave_thread, pop_base, pop_ip}
use e.Execute.Meaning.{Kept}
use e.Execute.Leaf.{IsReady, to_cell-to_value, ret_lem}
use e.Execute.Step.{rpush-Kept}

-- What a thread starts with: an empty part of the return stack of its own, above the base of the
-- thread that is left.
pub record Entered (lo : ℕ) (p e : Task) : Type 0 where
  pub base : e.tr0 ≡ p.rp - 1
  pub rp_base : e.rp ≡ p.rp - 1
  pub saved : e.mem p.rp ≡ to_value p.tr0
  pub sl_same : e.sl ≡ p.sl
  pub s0_same : e.s0 ≡ p.s0
  pub rl_same : e.rl ≡ p.rl
  pub low_same : (a : ℕ) → a < lo → e.mem a ≡ p.mem a
  pub high_same : (a : ℕ) → p.rp < a → e.mem a ≡ p.mem a

pub enter_lem :
    (lo cap : ℕ) (m : Memory) (p : Task) (user : ℕ)
    → IsReady lo m cap p
    → ravail p ≢ 0
    → Entered lo p (enter_thread p user)
      × IsReady lo m cap (enter_thread p user)
      × (contents (enter_thread p user) ≡ contents p)
      × ((enter_thread p user).ip ≡ user + 1)
unfolding enter_thread contents
enter_lem lo cap m p user ready room =
    let pushed = rpush-Kept lo p (to_value p.tr0) ready.coherent ready.above room in
    let k = pushed.0 in
    let ok = k.coherent in
    (
      record {
        base = k.rp_same;
        rp_base = k.rp_same;
        saved = pushed.2;
        sl_same = k.sl_same;
        s0_same = k.s0_same;
        rl_same = k.rl_same;
        low_same = k.low_same;
        high_same = k.high_same;
      },
      record {
        coherent = omega arith;
        above = let same = k.sl_same in let above = ready.above in omega arith;
        cap_same =
            let same = k.sl_same in
            let same' = k.s0_same in let size = ready.cap_same in omega arith;
        code_same = λ a h. k.low_same a h ∙ ready.code_same a h;
      },
      pushed.1,
      refl,
    )

-- What is left of a thread that ends with its return stack as it started: the base that was left,
-- and a return to the address below.
pub leave_lem :
    (code : Code) (lo : ℕ) (p e t : Task)
    → IsCoherent p
    → p.rp < p.tr0
    → 1 ≤ p.rp
    → Entered lo p e
    → Kept lo e.rp e.rp e t
    → (t' : Task) × (leave_thread code t ≡ returns tt t')
      × (contents t' ≡ contents t)
      × (t'.ip ≡ to_cell (p.mem (p.rp + 1)))
      × Kept lo (p.rp + 1) (p.rp + 1) p t'
unfolding leave_thread pop_base rpop contents
leave_lem code lo p e t ok full low entered k =
    let same : (t.rp == t.tr0) ≡ true =
      let r = k.rp_same in
      let b = k.tr0_same in let r' = entered.rp_base in let b' = entered.base in ground arith in
    let rp_back : t.rp + 1 ≡ p.rp = let r = k.rp_same in let r' = entered.rp_base in omega arith in
    let base_back : to_cell (t.mem (t.rp + 1)) ≡ p.tr0 =
      ap to_cell (
        ap t.mem rp_back
        ∙ k.high_same p.rp (let r' = entered.rp_base in omega arith)
        ∙ entered.saved)
      ∙ to_cell-to_value p.tr0 in
    let stack = k.coherent in
    let below : e.rp ≡ p.rp - 1 = entered.rp_base in
    let popped : Task = record t { rp = t.rp + 1; tr0 = to_cell (t.mem (t.rp + 1)) } in
    let back = ret_lem code lo popped (omega arith) (omega arith) in
    (
      pop_ip popped,
      rw (same) back.0,
      back.1,
      back.2
          ∙ ap to_cell (
              ap t.mem (omega arith)
              ∙ k.high_same (p.rp + 1) (omega arith)
              ∙ entered.high_same (p.rp + 1) (omega arith)),
      record {
        coherent = back.3.coherent;
        sl_same = back.3.sl_same ∙ k.sl_same ∙ entered.sl_same;
        s0_same = back.3.s0_same ∙ k.s0_same ∙ entered.s0_same;
        rl_same = back.3.rl_same ∙ k.rl_same ∙ entered.rl_same;
        tr0_same = back.3.tr0_same ∙ base_back;
        rp_same = back.3.rp_same ∙ ap (λ (n : ℕ). n + 1) rp_back;
        low_same = λ a h. back.3.low_same a h ∙ k.low_same a h ∙ entered.low_same a h;
        high_same = λ a h.
            back.3.high_same a (omega arith)
            ∙ k.high_same a (omega arith)
            ∙ entered.high_same a (omega arith);
      },
    )

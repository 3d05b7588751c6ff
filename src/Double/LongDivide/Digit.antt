-- ===== src/Double/LongDivide/Digit.antt =====
-- One digit of the long division is exact: the corrected estimate is the true quotient.
use native.Mathlib.Nat.{
  lt_of_mul-lt-mul_right, mul-le-mul_right, mod-eq_of_lt, le-div_iff_mul-le, div-add-mod', mod-lt,
  div-mul-le_self, lt-div-mul-add, div-lt_iff_lt-mul,
}
use e.Base.{
  ℕ, zero, suc, ◌+◌, ◌-◌, ◌*◌, ◌/◌, ◌%◌, ◌^◌, ◌≤◌, ◌<◌, ◌≡◌, arith, some, ltb, leb, dec_lt, ◌||◌,
}
use e.Usize.{join, modulus, high_half, low_half}
use e.Usize.Halves.{join_lem, high_half_lem, low_half_lem}
use e.Double.LongDivide.{base, correct, digit_of, remains}

pred-mul : (q d : ℕ) → 0 < q → (q - 1) * d + d ≡ q * d
pred-mul zero d h = absurd (omega arith)
pred-mul (suc q) d h = let e : suc q - 1 ≡ q = omega arith in rw e (omega arith)

-- `Q` is the quotient of the three half words (u, n) by the divisor, which has its highest bit set.
module _ (d1 d0 u n Q : ℕ) (normal : 2 ^ 31 ≤ d1) (d1_half : d1 < 2 ^ 32) (d0_half : d0 < 2 ^ 32)
    (n_half : n < 2 ^ 32) (fits : u < d1 * 2 ^ 32 + d0)
    (lower : Q * (d1 * 2 ^ 32 + d0) ≤ u * 2 ^ 32 + n)
    (upper : u * 2 ^ 32 + n < suc Q * (d1 * 2 ^ 32 + d0)) where
  Q-lt : Q < 2 ^ 32
  Q-lt = lt_of_mul-lt-mul_right (d1 * 2 ^ 32 + d0) {m = Q} {n = 2 ^ 32} (omega arith)

  -- An estimate is at most two above half a word's range, so its product does not wrap.
  estimate-lt : (q rem : ℕ) → q * d1 + rem ≡ u → q < 2 ^ 32 + 2
  estimate-lt q rem e = lt_of_mul-lt-mul_right d1 {m = q} {n = 2 ^ 32 + 2} (omega arith)

  product-lt : (q rem : ℕ) → q * d1 + rem ≡ u → q * d0 < 2 ^ 64
  product-lt q rem e =
      let bound = estimate-lt q rem e in
      omega (arith, mul-le-mul_right {m = q} {n = 2 ^ 32 + 1} d0 (omega arith))

  -- The loop's test says whether the estimate is too large.
  test_lem :
      (q rem : ℕ)
      → q * d1 + rem ≡ u
      → rem < 2 ^ 32
      → (leb base q || ltb (join rem n) (q * d0 % modulus)) ≡ ltb Q q
  test_lem q rem e h =
      let plain : q * d0 % modulus ≡ q * d0 = mod-eq_of_lt (product-lt q rem e) in
      let joined : join rem n ≡ rem * 2 ^ 32 + n = omega (arith, join_lem rem n) in
      rw (plain, joined)
        (elim (dec_lt Q q) [
          | yes over ↦ ground (arith, mul-le-mul_right {m = suc Q} {n = q} (d1 * 2 ^ 32 + d0) over)
          | no fine ↦
              ground
                (arith, Q-lt, mul-le-mul_right {m = q} {n = Q} (d1 * 2 ^ 32 + d0) (omega arith))
        ])

  -- With a remainder beyond half a word the estimate cannot be too large.
  beyond_half : (q rem : ℕ) → q * d1 + rem ≡ u → 2 ^ 32 ≤ rem → q ≤ Q
  beyond_half q rem e far =
      let below : q < 2 ^ 32 = lt_of_mul-lt-mul_right d1 {m = q} {n = 2 ^ 32} (omega arith) in
      elim (dec_lt Q q) [
        | yes over ↦ absurd (
            omega (
              arith,
              mul-le-mul_right {m = suc Q} {n = q} (d1 * 2 ^ 32 + d0) over,
              mul-le-mul_right {m = q} {n = 2 ^ 32} d0 (omega arith),
            ))
        | no fine ↦ omega arith
      ]

  -- From an estimate that is not too small the loop reaches the quotient, with `fuel` rounds to
  -- bring the remainder beyond half a word.
  correct_lem :
      (fuel q rem : ℕ)
      → q * d1 + rem ≡ u
      → rem < 2 ^ 32
      → Q ≤ q
      → 2 ^ 32 ≤ rem + fuel * d1
      → correct d1 d0 n (suc fuel) q rem ≡ some Q
  unfolding correct
  correct_lem zero q rem e h above enough = absurd (omega arith)
  correct_lem (suc fuel) q rem e h above enough =
      let bound = estimate-lt q rem e in
      rw (test_lem q rem e h) (elim (dec_lt Q q) [
        | yes over ↦
            let lowered : (q + modulus - 1) % modulus ≡ q - 1 = omega arith in
            let raised : (rem + d1) % modulus ≡ rem + d1 = omega arith in
            let e' : (q - 1) * d1 + (rem + d1) ≡ u = omega (arith, pred-mul q d1 (omega arith)) in
            ground
              (arith, beyond_half (q - 1) (rem + d1) e', correct_lem fuel (q - 1) (rem + d1) e')
        | no fine ↦ ground arith
      ])

  Q-le_estimate : Q ≤ u / d1
  Q-le_estimate = (le-div_iff_mul-le {k = d1} {x = Q} {y = u} (omega arith)).1 (omega arith)

  digit_of_lem : digit_of d1 d0 u n ≡ some Q
  unfolding digit_of
  digit_of_lem =
      correct_lem 2 (u / d1) (u % d1) (div-add-mod' u d1)
        (omega (arith, mod-lt u {m = d1} (omega arith))) Q-le_estimate (omega arith)

module _ (d u n : ℕ) (normal : 2 ^ 63 ≤ d) (d_word : d < 2 ^ 64) (n_half : n < 2 ^ 32)
    (fits : u < d) where
  -- The high half of the divisor estimates each digit, and the loop makes it exact.
  pub digit-quotient : digit_of (high_half d) (low_half d) u n ≡ some ((u * 2 ^ 32 + n) / d)
  digit-quotient =
      let halves : d / 2 ^ 32 % 2 ^ 32 * 2 ^ 32 + d % 2 ^ 32 ≡ d = omega arith in
      rw (high_half_lem, low_half_lem)
        (digit_of_lem (d / 2 ^ 32 % 2 ^ 32) (d % 2 ^ 32) u n ((u * 2 ^ 32 + n) / d) (omega arith)
          (omega arith) (omega arith) n_half (rw halves fits)
          (rw halves (div-mul-le_self (u * 2 ^ 32 + n) d))
          (rw halves (omega (arith, lt-div-mul-add {a = u * 2 ^ 32 + n} {b = d} (omega arith)))))

  pub digit-lt : (u * 2 ^ 32 + n) / d < 2 ^ 32
  digit-lt = (div-lt_iff_lt-mul (omega arith)).1 (omega arith)

  -- The subtraction that wraps gives the true remainder.
  pub remains-mod : remains u n ((u * 2 ^ 32 + n) / d) d ≡ (u * 2 ^ 32 + n) % d
  unfolding remains
  remains-mod =
      let whole = u * 2 ^ 32 + n in
      rw (join_lem u n) (omega (arith, div-add-mod' whole d, mod-lt whole {m = d} (omega arith)))

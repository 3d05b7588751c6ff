-- ===== src/Usize/Divide.antt =====
-- e4__usize_sdiv rounds towards zero, and e4__usize_todouble keeps the signed value.
use native.Mathlib.Nat.{div-le_self, div-lt_self, mod-lt}
use e.Base.{
  dec_lt, ℕ, ◌-◌, ◌/◌, ◌%◌, ◌^◌, ◌≤◌, ◌<◌, ◌≡◌, ◌≢◌, refl, arith, false, some, none, ◌==◌, xor,
  if◌then◌else◌, ◌⊎◌,
}
use e.Base.Int.{quot_ℤ, rem_ℤ, magnitude, below_zero}
use e.Usize.{negate, is_negative, sdiv, Division, to_double}
use e.Usize.Signed.{
  int_of, int_of_double, negate-magnitude, magnitude-int_of, is_negative-below_zero, int_of-signed,
}

-- A division by zero has no result.
sdiv-zero : (n : ℕ) → sdiv n 0 ≡ none
unfolding sdiv is_negative
sdiv-zero n = refl

quotient_fits :
    (n d : ℕ)
    → n < 2 ^ 64
    → d < 2 ^ 64
    → d ≢ 0
    → (n ≢ 2 ^ 63) ⊎ (d ≢ 2 ^ 64 - 1)
    → xor (below_zero (int_of n)) (below_zero (int_of d)) ≡ false
    → magnitude (int_of n) / magnitude (int_of d) < 2 ^ 63
quotient_fits n d hn hd ne fits same =
    let m = magnitude (int_of n) in
    let k = magnitude (int_of d) in
    elim (dec_lt m (2 ^ 63)) [
      | yes small ↦ omega (arith, div-le_self m k)
      | no top ↦
          let at_top : m ≡ 2 ^ 63 = omega (arith, magnitude-int_of n hn) in
          let wide : 1 < k = ground arith in
          omega (arith, div-lt_self {n = m} {k = k} (omega arith) wide)
    ]

-- For words and a divisor other than zero, and unless the most negative word is divided by
-- minus one, e4__usize_sdiv returns the signed quotient rounded towards zero, and as remainder
-- what is left, with the sign of the dividend.
pub sdiv_lem :
    (n d : ℕ)
    → n < 2 ^ 64
    → d < 2 ^ 64
    → d ≢ 0
    → (n ≢ 2 ^ 63) ⊎ (d ≢ 2 ^ 64 - 1)
    → (result : Division) × (sdiv n d ≡ some result)
      × (int_of result.q ≡ quot_ℤ (int_of n) (int_of d))
      × (int_of result.r ≡ rem_ℤ (int_of n) (int_of d))
unfolding sdiv
sdiv_lem n d hn hd ne fits =
    let a = int_of n in
    let b = int_of d in
    let m = magnitude a in
    let k = magnitude b in
    let divisor : (k == 0) ≡ false = ground arith in
    let below : m / k ≤ 2 ^ 63 = omega (arith, div-le_self m k, magnitude-int_of n hn) in
    let rest : m % k < 2 ^ 63 =
      omega (arith, magnitude-int_of d hd, mod-lt m {m = k} (ground arith)) in
    (
      record {
        q = if xor (below_zero a) (below_zero b) then negate (m / k) else m / k;
        r = if below_zero a then negate (m % k) else m % k;
      },
      rw (
        negate-magnitude n hn,
        negate-magnitude d hd,
        is_negative-below_zero n,
        is_negative-below_zero d,
        divisor,
      ),
      int_of-signed _ (m / k) below (quotient_fits n d hn hd ne fits),
      int_of-signed _ (m % k) (omega arith) (λ _. rest),
    )

-- Widening a word keeps the number that it stands for, for every word.
pub int_of_double-to_double : (n : ℕ) → n < 2 ^ 64 → int_of_double (to_double n) ≡ int_of n
unfolding to_double is_negative
int_of_double-to_double n h = ground arith

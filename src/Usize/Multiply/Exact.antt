-- ===== src/Usize/Multiply/Exact.antt =====
-- The product of two words loses nothing, read as unsigned and as signed numbers.
use native.Mathlib.Nat.{mul-le-mul}
use e.Base.{
  ℕ, ◌+◌, ◌-◌, ◌*◌, ◌/◌, ◌%◌, ◌^◌, ◌≤◌, ◌<◌, ◌≡◌, arith, true, false, inl, inr, Bool-cases,
}
use e.Usize.{f_signed, has_flag}
use e.Usize.Signed.{
  value, IsWords, int_of, int_of_double, negate-magnitude, magnitude-int_of, is_negative-below_zero,
  int_of_double-pos, int_of_double-double_negate,
}
use e.Base.Int.{signed, magnitude, ◌*ℤ◌, *ℤ_signs}
use e.Usize.Halves.{high_half_lem, low_half_lem, join_lem}
use e.Usize.Multiply.{mul, columns, multiply, unsign, flips}

prod_bound : (a b : ℕ) → a < 2 ^ 32 → b < 2 ^ 32 → a * b ≤ (2 ^ 32 - 1) * (2 ^ 32 - 1)
prod_bound a b h k =
    mul-le-mul {n₁ = a} {m₁ = b} {n₂ = 2 ^ 32 - 1} {m₂ = 2 ^ 32 - 1} (omega arith) (omega arith)

columns_lem :
    (lh ll rh rl : ℕ)
    → lh < 2 ^ 32
    → ll < 2 ^ 32
    → rh < 2 ^ 32
    → rl < 2 ^ 32
    → value (columns lh ll rh rl) ≡ (lh * 2 ^ 32 + ll) * (rh * 2 ^ 32 + rl)
unfolding columns
columns_lem lh ll rh rl h1 h2 h3 h4 =
    simp (high_half_lem, low_half_lem, join_lem)
      (ground (
        arith,
        prod_bound ll rl h2 h4,
        prod_bound ll rh h2 h3,
        prod_bound lh rl h1 h4,
        prod_bound lh rh h1 h3,
      ))

multiply_lem : (l r : ℕ) → l < 2 ^ 64 → r < 2 ^ 64 → value (multiply l r) ≡ l * r
unfolding multiply
multiply_lem l r h k =
    let whole : l / 2 ^ 32 % 2 ^ 32 * 2 ^ 32 + l % 2 ^ 32 ≡ l = omega arith in
    let whole' : r / 2 ^ 32 % 2 ^ 32 * 2 ^ 32 + r % 2 ^ 32 ≡ r = omega arith in
    let exact =
      columns_lem (l / 2 ^ 32 % 2 ^ 32) (l % 2 ^ 32) (r / 2 ^ 32 % 2 ^ 32) (r % 2 ^ 32)
        (omega arith) (omega arith) (omega arith) (omega arith) in
    simp (high_half_lem, low_half_lem) (rw (whole, whole') at exact)

columns-lt : (lh ll rh rl : ℕ) → IsWords (columns lh ll rh rl)
unfolding columns
columns-lt lh ll rh rl = omega arith

multiply-IsWords : (l r : ℕ) → IsWords (multiply l r)
unfolding multiply
multiply-IsWords l r = columns-lt _ _ _ _

-- Without the signed flag e4__usize_mul returns the exact product of any two words as a double
-- word.
pub value-mul :
    (l r flags : ℕ)
    → l < 2 ^ 64
    → r < 2 ^ 64
    → has_flag flags f_signed ≡ false
    → value (mul l r flags) ≡ l * r
unfolding mul unsign flips
value-mul l r flags h k plain = rw (plain) (multiply_lem l r h k)

square_bound : (m n : ℕ) → m ≤ 2 ^ 63 → n ≤ 2 ^ 63 → m * n ≤ 2 ^ 126
square_bound m n h k = mul-le-mul {n₁ = m} {m₁ = n} {n₂ = 2 ^ 63} {m₂ = 2 ^ 63} h k

unsign_lem :
    (flags u : ℕ)
    → has_flag flags f_signed ≡ true
    → u < 2 ^ 64
    → unsign flags u ≡ magnitude (int_of u)
unfolding unsign
unsign_lem flags u flag h = rw flag (negate-magnitude u h)

flips_lem :
    (flags l r : ℕ)
    → has_flag flags f_signed ≡ true
    → int_of l *ℤ int_of r ≡ signed (flips flags l r) (magnitude (int_of l) * magnitude (int_of r))
unfolding flips
flips_lem flags l r flag =
    rw (flag, is_negative-below_zero l, is_negative-below_zero r) (*ℤ_signs (int_of l) (int_of r))

-- With the signed flag e4__usize_mul returns the exact product of any two words as signed
-- numbers, in two's complement over 128 bits.
pub int_of_double-mul :
    (l r flags : ℕ)
    → l < 2 ^ 64
    → r < 2 ^ 64
    → has_flag flags f_signed ≡ true
    → int_of_double (mul l r flags) ≡ int_of l *ℤ int_of r
unfolding mul
int_of_double-mul l r flags h k flag =
    let m = magnitude (int_of l) in
    let n = magnitude (int_of r) in
    let small : m * n < 2 ^ 127 =
      omega (arith, square_bound m n (magnitude-int_of l h) (magnitude-int_of r k)) in
    let exact : value (multiply m n) ≡ m * n =
      multiply_lem m n (omega (arith, magnitude-int_of l h))
        (omega (arith, magnitude-int_of r k)) in
    rw (flips_lem flags l r flag, unsign_lem flags l flag h, unsign_lem flags r flag k)
      (elim (Bool-cases (flips flags l r)) [
        | inl e ↦
            rw e (
              int_of_double-double_negate (multiply m n) (m * n) (multiply-IsWords m n) exact small)
        | inr e ↦ rw e (int_of_double-pos (multiply m n) (m * n) exact small)
      ])

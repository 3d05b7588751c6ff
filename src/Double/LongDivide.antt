-- ===== src/Double/LongDivide.antt =====
-- The unsigned core of e4__double_ndiv of core/src/util/double.c: a double word by a word, in two
-- digits of half a word.
pub mod Digit
pub mod Exact
use e.Base.{
  ℕ, zero, suc, ◌+◌, ◌-◌, ◌*◌, ◌/◌, ◌%◌, ◌^◌, Option, none, some, ◌||◌, ltb, leb, ◌==◌,
  if◌then◌else◌, bit_or,
}
use e.Usize.{modulus, usize_bit, Division, clz, high_half, low_half, join}

-- `static const e4__usize base`
abbrev pub base : ℕ
base = 2 ^ 32

infixl 5 ◌>>=◌
abbrev pub ◌>>=◌ {ℓ κ} : {A : Type ℓ} {B : Type κ} → Option A → (A → Option B) → Option B
none >>= f = none
some a >>= f = f a

-- The loop that lowers an estimated digit, with fuel for its rounds; `none` is a loop that goes on.
module _ (d1 d0 n : ℕ) where
  unfoldable pub correct : ℕ → ℕ → ℕ → Option ℕ
  correct zero q rem = none
  correct (suc fuel) q rem =
      let q' = (q + modulus - 1) % modulus in
      let rem' = (rem + d1) % modulus in
      let again = correct fuel q' rem' in
      if leb base q || ltb (join rem n) (q * d0 % modulus)
      then if leb base rem' then some q' else again
      else some q

-- One digit: the estimate by the high half of the divisor, corrected. Two rounds are enough.
unfoldable pub digit_of : ℕ → ℕ → ℕ → ℕ → Option ℕ
digit_of d1 d0 u n = correct d1 d0 n 3 (u / d1) (u % d1)

-- What is left of `u` and `n` after the digit `q` of a division by `d`.
unfoldable pub remains : ℕ → ℕ → ℕ → ℕ → ℕ
remains u n q d = (join u n + modulus - q * d % modulus) % modulus

-- The two digits of a dividend (n32, n10) that is shifted as far as the divisor `d`.
unfoldable pub two_digits : ℕ → ℕ → ℕ → Option Division
two_digits d n32 n10 = do
  let d1 = high_half d
  let d0 = low_half d
  let n1 = high_half n10
  let n0 = low_half n10
  q1 ← digit_of d1 d0 n32 n1
  let n21 = remains n32 n1 q1 d
  q0 ← digit_of d1 d0 n21 n0
  some (record { q = join q1 q0; r = remains n21 n0 q0 d })

-- The shift by the zeros above the divisor, the digits, and the remainder shifted back.
unfoldable pub long_divide : ℕ → ℕ → ℕ → Option Division
long_divide high low d = do
  let s = clz d
  let top = high * 2 ^ s % modulus
  let n32 = if s == 0 then top else bit_or top (low / 2 ^ (usize_bit - s))
  res ← two_digits (d * 2 ^ s % modulus) n32 (low * 2 ^ s % modulus)
  some (record res { r = res.r / 2 ^ s })

-- ===== src/Base/Int.antt =====
-- Signed integers over the native numbers, under the library's names.
use Prim.Native.Nat.{ℕ, zero, suc, ◌+◌, ◌-◌, ◌*◌, ◌/◌, ◌%◌, ◌≤◌}
use mathlib.Core.Bool.{Bool, true, false, not, ◌&&◌}
use mathlib.Core.Logic.{◌≢◌, inl, inr}
use mathlib.Core.Path.{◌≡◌, refl}
use native.Mathlib.Nat.{div-add-mod, div-add-mod', mod-lt}
use native.Mathlib.Omega.{arith}
use e.Base.Tests.{leb, xor, ◌==◌, Bool-cases, if◌then◌else◌}

-- `negsuc n` is -(n + 1).
pub data ℤ : Type 0 where
  pos : ℕ → ℤ
  negsuc : ℕ → ℤ

abbrev pub pos_part : ℤ → ℕ
pos_part (pos n) = n
pos_part (negsuc n) = 0

abbrev pub neg_part : ℤ → ℕ
neg_part (pos n) = 0
neg_part (negsuc n) = suc n

-- The distance from zero.
abbrev pub magnitude : ℤ → ℕ
magnitude a = pos_part a + neg_part a

-- a - b, as an integer.
abbrev pub sub_ℕ : ℕ → ℕ → ℤ
sub_ℕ a b = if leb b a then pos (a - b) else negsuc (b - a - 1)

infixl 65 ◌+ℤ◌
infixl 70 ◌*ℤ◌
unfoldable pub ◌+ℤ◌ : ℤ → ℤ → ℤ
a +ℤ b = sub_ℕ (pos_part a + pos_part b) (neg_part a + neg_part b)

unfoldable pub ◌*ℤ◌ : ℤ → ℤ → ℤ
a *ℤ b =
    sub_ℕ (pos_part a * pos_part b + neg_part a * neg_part b)
      (pos_part a * neg_part b + neg_part a * pos_part b)

pub eq_of_parts : (a b : ℤ) → pos_part a + neg_part b ≡ pos_part b + neg_part a → a ≡ b
eq_of_parts a b h = ground arith

pub +ℤ_parts :
    (a b : ℤ)
    → pos_part (a +ℤ b) + neg_part a + neg_part b ≡ neg_part (a +ℤ b) + pos_part a + pos_part b
unfolding ◌+ℤ◌
+ℤ_parts a b = ground arith

pub *ℤ_parts :
    (a b : ℤ)
    → pos_part (a *ℤ b) + (pos_part a * neg_part b + neg_part a * pos_part b)
      ≡ neg_part (a *ℤ b) + (pos_part a * pos_part b + neg_part a * neg_part b)
unfolding ◌*ℤ◌
*ℤ_parts a b = ground arith

abbrev pub below_zero : ℤ → Bool
below_zero (pos n) = false
below_zero (negsuc n) = true

-- The number with the given sign and distance from zero.
abbrev pub signed : Bool → ℕ → ℤ
signed negative n = if negative then sub_ℕ 0 n else pos n

-- The rule of signs.
pub *ℤ_signs :
    (a b : ℤ) → a *ℤ b ≡ signed (xor (below_zero a) (below_zero b)) (magnitude a * magnitude b)
unfolding ◌*ℤ◌
*ℤ_signs (pos m) (pos n) = ground arith
*ℤ_signs (pos m) (negsuc n) = ground arith
*ℤ_signs (negsuc m) (pos n) = ground arith
*ℤ_signs (negsuc m) (negsuc n) = ground arith

-- Division that rounds towards zero.
abbrev pub quot_ℤ : ℤ → ℤ → ℤ
quot_ℤ a b = signed (xor (below_zero a) (below_zero b)) (magnitude a / magnitude b)

abbrev pub rem_ℤ : ℤ → ℤ → ℤ
rem_ℤ a b = signed (below_zero a) (magnitude a % magnitude b)

signed_parts :
    (b : Bool) (n : ℕ)
    → (pos_part (signed b n) ≡ (if b then 0 else n))
      × (neg_part (signed b n) ≡ (if b then n else 0))
signed_parts true zero = (refl, refl)
signed_parts true (suc n) = ground arith
signed_parts false n = (refl, refl)

linear :
    (q b r a : ℤ)
    → pos_part q * pos_part b + neg_part q * neg_part b + pos_part r + neg_part a
      ≡ pos_part q * neg_part b + neg_part q * pos_part b + neg_part r + pos_part a
    → q *ℤ b +ℤ r ≡ a
linear q b r a h = eq_of_parts _ _ (omega (arith, *ℤ_parts q b, +ℤ_parts (q *ℤ b) r))

split_up : (m n : ℕ) → n * (m / n) + m % n ≡ m
split_up m n = div-add-mod m n

pub quot_ℤ-rem_ℤ : (a b : ℤ) → quot_ℤ a b *ℤ b +ℤ rem_ℤ a b ≡ a
quot_ℤ-rem_ℤ a b = linear _ b _ a (
    ground (
      arith,
      signed_parts (xor (below_zero a) (below_zero b)) (magnitude a / magnitude b),
      signed_parts (below_zero a) (magnitude a % magnitude b),
      split_up (magnitude a) (magnitude b),
    ))

-- Division that rounds down: it differs where a remainder is left and the signs are not the same.
abbrev pub rounds_down : ℤ → ℤ → Bool
rounds_down a b = not (magnitude a % magnitude b == 0) && xor (below_zero a) (below_zero b)

abbrev pub floor_quot_ℤ : ℤ → ℤ → ℤ
floor_quot_ℤ a b =
    if rounds_down a b then signed true (magnitude a / magnitude b + 1) else quot_ℤ a b

abbrev pub floor_rem_ℤ : ℤ → ℤ → ℤ
floor_rem_ℤ a b =
    if rounds_down a b
    then signed (below_zero b) (magnitude b - magnitude a % magnitude b)
    else rem_ℤ a b

linear_parts :
    (q b r a : ℤ) (qp qn rp rn : ℕ)
    → (pos_part q ≡ qp) × (neg_part q ≡ qn)
    → (pos_part r ≡ rp) × (neg_part r ≡ rn)
    → qp * pos_part b + qn * neg_part b + rp + neg_part a
      ≡ qp * neg_part b + qn * pos_part b + rn + pos_part a
    → q *ℤ b +ℤ r ≡ a
linear_parts q b r a qp qn rp rn hq hr h = linear q b r a (rw (hq.0, hq.1, hr.0, hr.1) h)

down_parts :
    (a b : ℤ) (q r : ℕ)
    → xor (below_zero a) (below_zero b) ≡ true
    → q * magnitude b + r ≡ magnitude a
    → r ≤ magnitude b
    → signed true (q + 1) *ℤ b +ℤ signed (below_zero b) (magnitude b - r) ≡ a
down_parts (pos m) (pos n) q r differ e h = cc
down_parts (negsuc m) (negsuc n) q r differ e h = cc
down_parts (pos m) (negsuc n) q r differ e h =
    linear_parts (signed true (q + 1)) (negsuc n) (signed true (magnitude (negsuc n) - r)) (pos m) 0
      (q + 1) 0 (magnitude (negsuc n) - r) (signed_parts true (q + 1))
      (signed_parts true (magnitude (negsuc n) - r)) (omega arith)
down_parts (negsuc m) (pos n) q r differ e h =
    linear_parts (signed true (q + 1)) (pos n) (signed false (magnitude (pos n) - r)) (negsuc m) 0
      (q + 1) (magnitude (pos n) - r) 0 (signed_parts true (q + 1))
      (signed_parts false (magnitude (pos n) - r)) (omega arith)

pub floor_quot_ℤ-floor_rem_ℤ :
    (a b : ℤ) → magnitude b ≢ 0 → floor_quot_ℤ a b *ℤ b +ℤ floor_rem_ℤ a b ≡ a
floor_quot_ℤ-floor_rem_ℤ a b ne = elim (Bool-cases (rounds_down a b)) [
  | inl down ↦ rw down (
      down_parts a b _ _ (ground arith) (div-add-mod' (magnitude a) (magnitude b))
        (omega (arith, mod-lt (magnitude a) {m = magnitude b} (omega arith))))
  | inr plain ↦ rw plain (quot_ℤ-rem_ℤ a b)
]

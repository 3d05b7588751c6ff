-- ===== src/Base/Bits/Step.antt =====
-- The lowest digit of `&`, `|` and `^`, from the recursion on digits that they stand for.
use Prim.Native.Nat.{ℕ, zero, suc, ◌+◌, ◌*◌, ◌/◌, ◌%◌, ◌≤◌, ◌<◌, min, max, bit_and, bit_or, bit_xor}
use Prim.Native.Nat.{digits, differ, bit_and-bitwise, bit_or-bitwise, bit_xor-bitwise}
use mathlib.Core.Path.{◌≡◌, refl}
use native.Mathlib.Omega.{arith}

module _ (z : ℕ → ℕ) (f : ℕ → ℕ → ℕ) where
  -- Any two counts that cover the first number give the same digits.
  digits_any_count : (n m a b : ℕ) → a ≤ n → a ≤ m → digits z f n a b ≡ digits z f m a b
  digits_any_count (suc n) (suc m) (suc left) right first second =
      omega (arith, digits_any_count n m (suc left / 2) (right / 2) (omega arith) (omega arith))
  digits_any_count (suc n) (suc m) zero right first second = refl
  digits_any_count (suc n) zero (suc left) right first second = absurd (omega arith)
  digits_any_count (suc n) zero zero right first second = refl
  digits_any_count zero zero zero right first second = refl
  digits_any_count zero zero (suc left) right first second = absurd (omega arith)
  digits_any_count zero (suc m) zero right first second = refl
  digits_any_count zero (suc m) (suc left) right first second = absurd (omega arith)

  digits_step :
      (a b : ℕ)
      → digits z f (suc a) (suc a) b
        ≡ digits z f (suc a / 2) (suc a / 2) (b / 2) * 2 + f (suc a % 2) (b % 2)
  digits_step a b =
      omega (arith, digits_any_count a (suc a / 2) (suc a / 2) (b / 2) (omega arith) (omega arith))

pub bit_and_step :
    (left right : ℕ)
    → bit_and left right ≡ bit_and (left / 2) (right / 2) * 2 + min (left % 2) (right % 2)
bit_and_step zero right = rw (bit_and-bitwise 0 right, bit_and-bitwise 0 (right / 2)) (omega arith)
bit_and_step (suc left) right =
    rw (bit_and-bitwise (suc left) right, bit_and-bitwise (suc left / 2) (right / 2))
      (digits_step (λ _. 0) min left right)

pub bit_or_step :
    (left right : ℕ)
    → bit_or left right ≡ bit_or (left / 2) (right / 2) * 2 + max (left % 2) (right % 2)
bit_or_step zero right = rw (bit_or-bitwise 0 right, bit_or-bitwise 0 (right / 2)) (omega arith)
bit_or_step (suc left) right =
    rw (bit_or-bitwise (suc left) right, bit_or-bitwise (suc left / 2) (right / 2))
      (digits_step (λ y. y) max left right)

-- One binary digit of `^`.
abbrev pub digit_xor : ℕ → ℕ → ℕ
digit_xor a b = (a + b) % 2

differ-digit_xor_lt : (x y : ℕ) → x < 2 → y < 2 → differ x y ≡ digit_xor x y
differ-digit_xor_lt zero zero h k = refl
differ-digit_xor_lt zero (suc zero) h k = refl
differ-digit_xor_lt (suc zero) zero h k = refl
differ-digit_xor_lt (suc zero) (suc zero) h k = refl
differ-digit_xor_lt zero (suc (suc y)) h k = absurd (omega arith)
differ-digit_xor_lt (suc zero) (suc (suc y)) h k = absurd (omega arith)
differ-digit_xor_lt (suc (suc x)) y h k = absurd (omega arith)

differ-digit_xor : (a b : ℕ) → differ (a % 2) (b % 2) ≡ digit_xor (a % 2) (b % 2)
differ-digit_xor a b = differ-digit_xor_lt (a % 2) (b % 2) (omega arith) (omega arith)

pub bit_xor_step : (a b : ℕ) → bit_xor a b ≡ bit_xor (a / 2) (b / 2) * 2 + digit_xor (a % 2) (b % 2)
bit_xor_step zero b = simp bit_xor-bitwise (omega arith)
bit_xor_step (suc a) b =
    simp bit_xor-bitwise
      (omega (arith, digits_step (λ y. y) differ a b, differ-digit_xor (suc a) b))

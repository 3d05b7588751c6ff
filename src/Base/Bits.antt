-- ===== src/Base/Bits.antt =====
-- The bit operations as arithmetic, at every width: fields, masks and complements.
mod Step
use Step.{bit_and_step, bit_or_step, bit_xor_step, digit_xor}
use Prim.Native.Nat.{ℕ, zero, suc, ◌+◌, ◌-◌, ◌*◌, ◌/◌, ◌%◌, ◌^◌, ◌≤◌, ◌<◌, min, max}
use Prim.Native.Nat.{bit_and, bit_or, bit_xor, bit_and-bitwise, bit_or-bitwise}
use mathlib.Core.Path.{◌≡◌, refl, ap, ◌∙◌}
use native.Mathlib.Nat.{
  pow-suc, one-le-pow, div-add-mod', zero-mul, zero-add, add-zero, add-suc, mul-le-mul_left,
}
use native.Mathlib.Decide.{dec_lt}
use native.Mathlib.Omega.{arith}

-- `&`, `|` and `^` act on the low `k` bits and on the bits above them apart.
module _ (op f : ℕ → ℕ → ℕ) (at_zero : op 0 0 ≡ 0)
    (step : (a b : ℕ) → op a b ≡ op (a / 2) (b / 2) * 2 + f (a % 2) (b % 2)) where
  fields :
      (k q r q' r' : ℕ)
      → r < 2 ^ k
      → r' < 2 ^ k
      → op (q * 2 ^ k + r) (q' * 2 ^ k + r') ≡ op q q' * 2 ^ k + op r r'
  fields zero q r q' r' h h' =
      let e : r ≡ 0 = omega arith in
      let e' : r' ≡ 0 = omega arith in
      let s : q * 2 ^ 0 + 0 ≡ q = omega arith in
      let s' : q' * 2 ^ 0 + 0 ≡ q' = omega arith in rw (e, e', s, s', at_zero) (omega arith)
  fields (suc k) q r q' r' h h' =
      let d = pow-suc 2 k in
      let m = ap (λ (t : ℕ). q * t) d in
      let m' = ap (λ (t : ℕ). q' * t) d in
      let n = ap (λ (t : ℕ). op q q' * t) d in
      let half : (q * 2 ^ suc k + r) / 2 ≡ q * 2 ^ k + r / 2 = omega arith in
      let half' : (q' * 2 ^ suc k + r') / 2 ≡ q' * 2 ^ k + r' / 2 = omega arith in
      let low : (q * 2 ^ suc k + r) % 2 ≡ r % 2 = omega arith in
      let low' : (q' * 2 ^ suc k + r') % 2 ≡ r' % 2 = omega arith in
      let ih = fields k q (r / 2) q' (r' / 2) (omega arith) (omega arith) in
      rw (step (q * 2 ^ suc k + r) (q' * 2 ^ suc k + r'), half, half', low, low', ih)
        (omega (arith, step r r'))

  -- The same at a number's own quotient and remainder.
  split : (k a b : ℕ) → op a b ≡ op (a / 2 ^ k) (b / 2 ^ k) * 2 ^ k + op (a % 2 ^ k) (b % 2 ^ k)
  split k a b =
      rw (div-add-mod' a (2 ^ k), div-add-mod' b (2 ^ k)) at
        (fields k (a / 2 ^ k) (a % 2 ^ k) (b / 2 ^ k) (b % 2 ^ k) (omega (arith, one-le-pow k 2))
          (omega (arith, one-le-pow k 2)))

abbrev pub low_mask : ℕ → ℕ
low_mask k = 2 ^ k - 1

half-low_mask : (k : ℕ) → (low_mask (suc k) / 2 ≡ low_mask k) × (low_mask (suc k) % 2 ≡ 1)
half-low_mask k = omega (arith, pow-suc 2 k, one-le-pow k 2)

pub bit_and-low_mask_lt : (k r : ℕ) → r < 2 ^ k → bit_and r (low_mask k) ≡ r
bit_and-low_mask_lt zero r h = let e : r ≡ 0 = omega arith in rw e
bit_and-low_mask_lt (suc k) r h =
    rw (bit_and_step r (low_mask (suc k)), (half-low_mask k).0, (half-low_mask k).1)
      (omega (arith, bit_and-low_mask_lt k (r / 2) (omega (arith, pow-suc 2 k))))

-- Flipping `k` bits of a `k`-bit number takes it from the mask.
pub bit_xor-low_mask : (k r : ℕ) → r < 2 ^ k → bit_xor r (low_mask k) ≡ low_mask k - r
bit_xor-low_mask zero r h = let e : r ≡ 0 = omega arith in rw e
bit_xor-low_mask (suc k) r h =
    rw (bit_xor_step r (low_mask (suc k)), (half-low_mask k).0, (half-low_mask k).1)
      (omega (arith, pow-suc 2 k, bit_xor-low_mask k (r / 2) (omega (arith, pow-suc 2 k))))

bit_and-zero_lt : (k r : ℕ) → r < 2 ^ k → bit_and r 0 ≡ 0
bit_and-zero_lt zero r h = let e : r ≡ 0 = omega arith in rw e
bit_and-zero_lt (suc k) r h =
    omega (arith, bit_and_step r 0, bit_and-zero_lt k (r / 2) (omega (arith, pow-suc 2 k)))

bit_or-zero_lt : (k r : ℕ) → r < 2 ^ k → bit_or r 0 ≡ r
bit_or-zero_lt zero r h = let e : r ≡ 0 = omega arith in rw e
bit_or-zero_lt (suc k) r h =
    omega (arith, bit_or_step r 0, bit_or-zero_lt k (r / 2) (omega (arith, pow-suc 2 k)))

lt-two-pow : (n : ℕ) → n < 2 ^ n
lt-two-pow zero = omega arith
lt-two-pow (suc n) = omega (arith, pow-suc 2 n, lt-two-pow n)

pub bit_and-zero : (a : ℕ) → bit_and a 0 ≡ 0
bit_and-zero a = bit_and-zero_lt a a (lt-two-pow a)

pub bit_or-zero : (a : ℕ) → bit_or a 0 ≡ a
bit_or-zero a = bit_or-zero_lt a a (lt-two-pow a)

pub bit_or-zero_left : (a : ℕ) → bit_or 0 a ≡ a
bit_or-zero_left a = bit_or-bitwise 0 a

pub bit_and-zero_left : (a : ℕ) → bit_and 0 a ≡ 0
bit_and-zero_left a = bit_and-bitwise 0 a

pub bit_and_fields :
    (k q r q' r' : ℕ)
    → r < 2 ^ k
    → r' < 2 ^ k
    → bit_and (q * 2 ^ k + r) (q' * 2 ^ k + r') ≡ bit_and q q' * 2 ^ k + bit_and r r'
bit_and_fields = fields bit_and min refl bit_and_step

-- A low mask is the remainder by a power of two.
pub bit_and-low_mask : (k a : ℕ) → bit_and a (low_mask k) ≡ a % 2 ^ k
bit_and-low_mask k a =
    let pos = one-le-pow k 2 (omega arith) in
    let cut = bit_and_fields k (a / 2 ^ k) (a % 2 ^ k) 0 (low_mask k) (omega arith) (omega arith) in
    rw (div-add-mod' a (2 ^ k), zero-mul, zero-add, bit_and-zero, zero-mul, zero-add) at cut
    ∙ bit_and-low_mask_lt k (a % 2 ^ k) (omega arith)

-- A mask of `n` bits from bit `k` on.
pub bit_and-high_mask : (k n a : ℕ) → bit_and a (low_mask n * 2 ^ k) ≡ a / 2 ^ k % 2 ^ n * 2 ^ k
bit_and-high_mask k n a =
    let pos = one-le-pow k 2 (omega arith) in
    let cut = bit_and_fields k (a / 2 ^ k) (a % 2 ^ k) (low_mask n) 0 (omega arith) (omega arith) in
    rw (div-add-mod' a (2 ^ k), add-zero, bit_and-zero, add-zero) at cut
    ∙ ap (λ t. t * 2 ^ k) (bit_and-low_mask n (a / 2 ^ k))

-- `|` joins a field above bit `k` with one below it.
pub bit_or_join : (k q r : ℕ) → r < 2 ^ k → bit_or (q * 2 ^ k) r ≡ q * 2 ^ k + r
bit_or_join k q r h =
    let pos = one-le-pow k 2 (omega arith) in
    rw (add-zero, zero-mul, zero-add, bit_or-zero, bit_or-zero_left) at
      (fields bit_or max refl bit_or_step k q 0 0 r pos h)

pub two-pow-add : (a b : ℕ) → 2 ^ (a + b) ≡ 2 ^ a * 2 ^ b
two-pow-add a zero = rw add-zero (omega arith)
two-pow-add a (suc b) =
    rw add-suc
      (omega (arith, pow-suc 2 (a + b), two-pow-add a b, ap (λ (t : ℕ). 2 ^ a * t) (pow-suc 2 b)))

bit_and_comm_lt : (k a b : ℕ) → a < 2 ^ k → b < 2 ^ k → bit_and a b ≡ bit_and b a
bit_and_comm_lt zero a b h h' =
    let e : a ≡ 0 = omega arith in let e' : b ≡ 0 = omega arith in rw (e, e')
bit_and_comm_lt (suc k) a b h h' =
    let d = pow-suc 2 k in
    let ih = bit_and_comm_lt k (a / 2) (b / 2) (omega arith) (omega arith) in
    omega (arith, bit_and_step a b, bit_and_step b a)

pub bit_and_comm : (a b : ℕ) → bit_and a b ≡ bit_and b a
bit_and_comm a b =
    let sum = two-pow-add a b in
    let pos = one-le-pow a 2 (omega arith) in
    let pos' = one-le-pow b 2 (omega arith) in
    bit_and_comm_lt (a + b) a b (grind (arith, lt-two-pow a)) (grind (arith, lt-two-pow b))

pub lt_of_two-pow-lt : (a b : ℕ) → 2 ^ a < 2 ^ b → a < b
lt_of_two-pow-lt a b h = elim (dec_lt a b) [
  | yes less ↦ less
  | no over ↦
      let sum : b + (a - b) ≡ a = omega arith in
      let grown = rw sum at (two-pow-add b (a - b)) in
      absurd (omega (arith, mul-le-mul_left {m = 1} (2 ^ b) (one-le-pow (a - b) 2 (omega arith))))
]

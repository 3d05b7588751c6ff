-- ===== src/Usize/Halves.antt =====
-- The macros of core/include/e4.h that negate, split and join a word, as arithmetic.
use e.Base.{ℕ, ◌+◌, ◌-◌, ◌*◌, ◌/◌, ◌%◌, ◌^◌, ◌<◌, ◌≡◌, arith}
use e.Base.Bits
use e.Usize.{negate, high_half, low_half, join}

pub negate_lem : (u : ℕ) → u < 2 ^ 64 → negate u ≡ (2 ^ 64 - u) % 2 ^ 64
unfolding negate
negate_lem u h = omega (arith, Bits.bit_xor-low_mask 64 u h)

pub low_half_lem : (u : ℕ) → low_half u ≡ u % 2 ^ 32
unfolding low_half
low_half_lem u = Bits.bit_and-low_mask 32 u

pub high_half_lem : (u : ℕ) → high_half u ≡ u / 2 ^ 32 % 2 ^ 32
unfolding high_half
high_half_lem u = omega (arith, Bits.bit_and-high_mask 32 32 u)

pub join_lem : (m l : ℕ) → join m l ≡ m % 2 ^ 32 * 2 ^ 32 + l % 2 ^ 32
unfolding join
join_lem m l =
    let top = m * 2 ^ 32 % 2 ^ 64 in
    rw (Bits.bit_and-high_mask 32 32 top, Bits.bit_and-low_mask 32 l)
      (omega (arith, Bits.bit_or_join 32 (top / 2 ^ 32 % 2 ^ 32) (l % 2 ^ 32) (omega arith)))

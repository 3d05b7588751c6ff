-- ===== src/Usize/LeadingZeros.antt =====
-- e4__usize_clz counts the zeros above the highest set bit.
use native.Mathlib.Nat.{
  mul-pos, mul_comm, mul_assoc, mul-lt-mul_of_pos_right, mul-le-mul_right, div-lt_iff_lt-mul,
  div-eq_of_lt, mod-eq_of_lt, one-le-pow, le-div_iff_mul-le,
}
use e.Base.{
  ℕ, suc, ◌+◌, ◌-◌, ◌*◌, ◌/◌, ◌%◌, ◌^◌, ◌≤◌, ◌<◌, ◌≡◌, ◌≢◌, refl, arith, false, bit_and, ◌==◌, ltb,
  inl, inr, Bool-cases, ltb_false→le, ltb→lt,
}
use e.Base.Bits
use e.Base.Bits.{low_mask}
use e.Usize.{clz, clz_loop, modulus}

-- What the loop is to return for `u`: the shift that brings its highest bit to the top.
abbrev pub Normalizes : ℕ → ℕ → Type 0
Normalizes u c = (2 ^ 63 ≤ u * 2 ^ c) × (u * 2 ^ c < 2 ^ 64)

mask-kept : (e j u : ℕ) → u < 2 ^ e * 2 ^ j → bit_and (low_mask e * 2 ^ j) u ≡ u / 2 ^ j * 2 ^ j
mask-kept e j u h =
    let below = (div-lt_iff_lt-mul (one-le-pow j 2 (omega arith))).1 h in
    rw (Bits.bit_and_comm, Bits.bit_and-high_mask j e u, mod-eq_of_lt below)

mask-empty : (e j u : ℕ) → u < 2 ^ e * 2 ^ j → (bit_and (low_mask e * 2 ^ j) u == 0) ≡ ltb u (2 ^ j)
mask-empty e j u h = rw (mask-kept e j u h) (elim (Bool-cases (ltb u (2 ^ j))) [
  | inl low ↦ rw (low, div-eq_of_lt (ltb→lt u (2 ^ j) low)) (ground arith)
  | inr top ↦
      let one_up =
        (le-div_iff_mul-le {x = 1} {y = u} (one-le-pow j 2 (omega arith))).1
          (omega (arith, ltb_false→le u (2 ^ j) top)) in
      rw top (ground (arith, mul-pos one_up (one-le-pow j 2 (omega arith))))
])

-- One round: `w` is halved to `e`, and the mask covers the top `e` of 64 bits.
module _ (u₀ fuel w e i j : ℕ) (half : w / 2 ≡ e) (pos : (e == 0) ≡ false) (m : ℕ)
    (mask : m * 2 ^ e % modulus ≡ low_mask e * 2 ^ j) (width : 2 ^ e * 2 ^ j ≡ 2 ^ 64)
    (up : 2 ^ i * 2 ^ e ≡ 2 ^ j)
    (next : (u c : ℕ)
      → u₀ * 2 ^ c ≡ u
      → 2 ^ j ≤ u
      → u < 2 ^ 64
      → Normalizes u₀ (clz_loop fuel e (low_mask e * 2 ^ j) u c)) where
  round :
      (u c : ℕ)
      → u₀ * 2 ^ c ≡ u
      → 2 ^ i ≤ u
      → u < 2 ^ 64
      → Normalizes u₀ (clz_loop (suc fuel) w m u c)
  unfolding clz_loop
  round u c e₀ low high =
      let small_fits = λ (small : u < 2 ^ j). rw width at (
        rw (mul_comm (2 ^ j) (2 ^ e)) at
          (mul-lt-mul_of_pos_right {k = 2 ^ e} small (one-le-pow e 2 (omega arith)))) in
      let grown : 2 ^ j ≤ u * 2 ^ e = rw up at (mul-le-mul_right (2 ^ e) low) in
      let tracked : u₀ * 2 ^ (c + e) ≡ u * 2 ^ e =
        rw (Bits.two-pow-add c e, ← mul_assoc u₀ (2 ^ c) (2 ^ e), e₀) in
      rw (half, mask, pos, mask-empty e j u (rw width high))
        (elim (Bool-cases (ltb u (2 ^ j))) [
          | inl small ↦
              rw (small, mod-eq_of_lt (small_fits (ltb→lt u (2 ^ j) small)))
                (next (u * 2 ^ e) (c + e) tracked grown (small_fits (ltb→lt u (2 ^ j) small)))
          | inr large ↦ rw large (next u c e₀ (ltb_false→le u (2 ^ j) large) high)
        ])

-- For every word but zero, shifting it left by what e4__usize_clz returns brings its highest
-- bit to the top and loses none.
pub clz-Normalizes : (u : ℕ) → u < 2 ^ 64 → u ≢ 0 → Normalizes u (clz u)
unfolding clz
clz-Normalizes u high ne = rw (is_zero) (r32 u 0 (omega arith) (omega arith) high)
  where
    is_zero : (u == 0) ≡ false
    is_zero = ground arith

    last :
        (u' c : ℕ)
        → u * 2 ^ c ≡ u'
        → 2 ^ 63 ≤ u'
        → u' < 2 ^ 64
        → Normalizes u (clz_loop 1 1 (low_mask 1 * 2 ^ 63) u' c)
    last u' c e low top = ground arith

    r1 :
        (u' c : ℕ)
        → u * 2 ^ c ≡ u'
        → 2 ^ 62 ≤ u'
        → u' < 2 ^ 64
        → Normalizes u (clz_loop 2 2 (low_mask 2 * 2 ^ 62) u' c)
    r1 = round u 1 2 1 62 63 refl refl (low_mask 2 * 2 ^ 62) refl refl refl last

    r2 :
        (u' c : ℕ)
        → u * 2 ^ c ≡ u'
        → 2 ^ 60 ≤ u'
        → u' < 2 ^ 64
        → Normalizes u (clz_loop 3 4 (low_mask 4 * 2 ^ 60) u' c)
    r2 = round u 2 4 2 60 62 refl refl (low_mask 4 * 2 ^ 60) refl refl refl r1

    r4 :
        (u' c : ℕ)
        → u * 2 ^ c ≡ u'
        → 2 ^ 56 ≤ u'
        → u' < 2 ^ 64
        → Normalizes u (clz_loop 4 8 (low_mask 8 * 2 ^ 56) u' c)
    r4 = round u 3 8 4 56 60 refl refl (low_mask 8 * 2 ^ 56) refl refl refl r2

    r8 :
        (u' c : ℕ)
        → u * 2 ^ c ≡ u'
        → 2 ^ 48 ≤ u'
        → u' < 2 ^ 64
        → Normalizes u (clz_loop 5 16 (low_mask 16 * 2 ^ 48) u' c)
    r8 = round u 4 16 8 48 56 refl refl (low_mask 16 * 2 ^ 48) refl refl refl r4

    r16 :
        (u' c : ℕ)
        → u * 2 ^ c ≡ u'
        → 2 ^ 32 ≤ u'
        → u' < 2 ^ 64
        → Normalizes u (clz_loop 6 32 (low_mask 32 * 2 ^ 32) u' c)
    r16 = round u 5 32 16 32 48 refl refl (low_mask 32 * 2 ^ 32) refl refl refl r8

    r32 :
        (u' c : ℕ)
        → u * 2 ^ c ≡ u'
        → 2 ^ 0 ≤ u'
        → u' < 2 ^ 64
        → Normalizes u (clz_loop 7 64 (2 ^ 64 - 1) u' c)
    r32 = round u 6 64 32 0 32 refl refl (2 ^ 64 - 1) refl refl refl r16

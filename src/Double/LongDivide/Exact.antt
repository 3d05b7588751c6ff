-- ===== src/Double/LongDivide/Exact.antt =====
-- The unsigned long division is exact on every double word whose quotient fits a word.
use native.Mathlib.Nat.{
  mod-lt, div-add-mod', mul-add-div_right, div-eq_of_lt, mul-lt-mul_of_pos_right, mul-le-mul_right,
  mul-div_left, one-le-pow, mod-eq_of_lt, div-lt_iff_lt-mul,
}
use e.Base.{
  ℕ, ◌+◌, ◌-◌, ◌*◌, ◌/◌, ◌%◌, ◌^◌, ◌≤◌, ◌<◌, ◌≡◌, arith, some, inl, inr, Bool-cases, ◌==◌, bit_or,
  if◌then◌else◌, ap, sym, ==_iff,
}
use e.Base.Bits
use e.Usize.{modulus, usize_bit, clz}
use e.Usize.Halves.{join_lem, high_half_lem, low_half_lem}
use e.Usize.LeadingZeros.{clz-Normalizes}
use e.Double.LongDivide.{two_digits, long_divide}
use e.Double.LongDivide.Digit.{digit-quotient, digit-lt, remains-mod}

-- A number is determined as quotient and remainder.
pub div-mod_unique : (n d q r : ℕ) → q * d + r ≡ n → r < d → (q ≡ n / d) × (r ≡ n % d)
div-mod_unique n d q r e h =
    let quotient : q ≡ n / d =
      rw (← e) (rw (mul-add-div_right {m = d} (omega arith) q r, div-eq_of_lt h) (omega arith)) in
    (quotient, omega (arith, div-add-mod' n d, ap (λ (t : ℕ). t * d) quotient))

module _ (d n32 n10 : ℕ) (normal : 2 ^ 63 ≤ d) (d_word : d < 2 ^ 64) (low_word : n10 < 2 ^ 64)
    (fits : n32 < d) where
  two_digits_lem :
      two_digits d n32 n10
      ≡ some (record { q = (n32 * 2 ^ 64 + n10) / d; r = (n32 * 2 ^ 64 + n10) % d })
  unfolding two_digits
  two_digits_lem =
      let n1 = n10 / 2 ^ 32 % 2 ^ 32 in
      let n0 = n10 % 2 ^ 32 in
      let q1 = (n32 * 2 ^ 32 + n1) / d in
      let n21 = (n32 * 2 ^ 32 + n1) % d in
      let below : n21 < d = mod-lt (n32 * 2 ^ 32 + n1) {m = d} (omega arith) in
      rw
        (
          high_half_lem n10,
          low_half_lem n10,
          digit-quotient d n32 n1 normal d_word (omega arith) fits,
          remains-mod d n32 n1 normal d_word (omega arith) fits,
          digit-quotient d n21 n0 normal d_word (omega arith) below,
          remains-mod d n21 n0 normal d_word (omega arith) below,
          join_lem,
        )
        (ground (
          arith,
          digit-lt d n32 n1 normal d_word (omega arith) fits,
          digit-lt d n21 n0 normal d_word (omega arith) below,
          div-mod_unique (n32 * 2 ^ 64 + n10) d (q1 * 2 ^ 32 + (n21 * 2 ^ 32 + n0) / d)
              ((n21 * 2 ^ 32 + n0) % d)
              (omega
                (arith, div-add-mod' (n32 * 2 ^ 32 + n1) d, div-add-mod' (n21 * 2 ^ 32 + n0) d))
              (mod-lt (n21 * 2 ^ 32 + n0) {m = d} (omega arith)),
        ))

-- Shifting dividend and divisor alike keeps the quotient and shifts the remainder.
shifted : (n d k : ℕ) → 0 < k → 0 < d → (n * k / (d * k) ≡ n / d) × (n * k % (d * k) ≡ n % d * k)
shifted n d k pos pos' =
    let e = div-add-mod' n d in
    let (q, r) =
      div-mod_unique (n * k) (d * k) (n / d) (n % d * k) (omega (arith, ap (λ (t : ℕ). t * k) e))
        (mul-lt-mul_of_pos_right (mod-lt n pos') pos) in
    (sym q, sym r)

-- The dividend's high word, shifted with the bits that come up from the low word.
shift_up :
    (high low s : ℕ)
    → s < 64
    → high * 2 ^ s < 2 ^ 64
    → low < 2 ^ 64
    → (if s == 0
            then high * 2 ^ s % modulus
            else bit_or (high * 2 ^ s % modulus) (low / 2 ^ (usize_bit - s)))
          * 2 ^ 64
        + low * 2 ^ s % modulus
      ≡ (high * 2 ^ 64 + low) * 2 ^ s
shift_up high low s h fits word =
    let sum : s + (64 - s) ≡ 64 = omega arith in
    let width : 2 ^ s * 2 ^ (64 - s) ≡ 2 ^ 64 = rw sum at (sym (Bits.two-pow-add s (64 - s))) in
    let pos = one-le-pow s 2 (omega arith) in
    let pos' = one-le-pow (64 - s) 2 (omega arith) in
    let out : low / 2 ^ (64 - s) < 2 ^ s =
      (div-lt_iff_lt-mul {k = 2 ^ (64 - s)} {x = low} {y = 2 ^ s} pos').1 (rw width word) in
    let cut =
      div-mod_unique (low * 2 ^ s) (2 ^ 64) (low / 2 ^ (64 - s)) (low % 2 ^ (64 - s) * 2 ^ s)
        (omega (
          arith,
          ap (λ (t : ℕ). t * 2 ^ s) (div-add-mod' low (2 ^ (64 - s))),
          ap (λ (t : ℕ). low / 2 ^ (64 - s) * t) width,
        ))
        (omega (arith, width, mul-lt-mul_of_pos_right {k = 2 ^ s} (mod-lt low pos') pos)) in
    rw (mod-eq_of_lt fits, Bits.bit_or_join s high (low / 2 ^ (64 - s)) out)
      (elim (Bool-cases (s == 0)) [
        | inl none_shifted ↦ rw none_shifted (
            let unit : 2 ^ s ≡ 1 = ap (λ (t : ℕ). 2 ^ t) ((==_iff s 0).0 none_shifted) in
            rw unit (omega arith))
        | inr some_shifted ↦ rw some_shifted (omega (arith, cut))
      ])

-- For two words of a dividend and a divisor, a word above the high one, the division in digits
-- of half a word ends and gives the quotient and the remainder of the double word.
pub long_divide_lem :
    (high low d : ℕ)
    → low < 2 ^ 64
    → d < 2 ^ 64
    → high < d
    → long_divide high low d
      ≡ some (record { q = (high * 2 ^ 64 + low) / d; r = (high * 2 ^ 64 + low) % d })
unfolding long_divide
long_divide_lem high low d word d_word fits =
    let s = clz d in
    let n = high * 2 ^ 64 + low in
    let top = clz-Normalizes d d_word (omega arith) in
    let pos = one-le-pow s 2 (omega arith) in
    let small : s < 64 =
      Bits.lt_of_two-pow-lt s 64
        (omega (arith, mul-le-mul_right {m = 1} {n = d} (2 ^ s) (omega arith))) in
    let high_fits : high * 2 ^ s < d * 2 ^ s = mul-lt-mul_of_pos_right fits pos in
    let scaled = shifted n d (2 ^ s) pos (omega arith) in
    let joined = shift_up high low s small (omega arith) word in
    let plain : d * 2 ^ s % modulus ≡ d * 2 ^ s = mod-eq_of_lt top.1 in
    let n32 =
      if s == 0
      then high * 2 ^ s % modulus
      else bit_or (high * 2 ^ s % modulus) (low / 2 ^ (usize_bit - s)) in
    let whole : n * 2 ^ s < d * 2 ^ 64 * 2 ^ s = mul-lt-mul_of_pos_right (omega arith) pos in
    let digits =
      two_digits_lem (d * 2 ^ s) n32 (low * 2 ^ s % modulus) top.0 top.1 (omega arith)
        (omega arith) in
    rw (plain, digits, joined, scaled.0, scaled.1) (rw (mul-div_left (n % d) {n = 2 ^ s} pos))

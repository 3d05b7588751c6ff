-- ===== src/Double/Divide/Narrow.antt =====
-- e4__double_ndiv with the signed flag: both roundings, and the report of a quotient that does not
-- fit.
use native.Mathlib.Nat.{
  mul-le-mul, le_refl, mod-lt, div-add-mod', div-lt_iff_lt-mul, mod-eq_of_lt, mul-div_left,
  one-le-pow,
}
use e.Base.{
  dec_lt, ℕ, ◌+◌, ◌-◌, ◌*◌, ◌/◌, ◌%◌, ◌^◌, ◌≤◌, ◌<◌, ◌≡◌, ◌≢◌, refl, arith, some, inl, inr,
  Bool-cases, ◌==◌, true, false, if◌then◌else◌, ap, ◌∙◌, leb, Bool, ◌&&◌, ltb, not, xor,
}
use e.Base.Int.{
  ℤ, magnitude, below_zero, signed, quot_ℤ, rem_ℤ, floor_quot_ℤ, floor_rem_ℤ, rounds_down,
}
use e.Errors.{ok, err, e_rsltoutorange}
use e.Usize.{Double, Division, has_flag, f_signed, f_floordiv, is_negative, negate, clz, modulus}
use e.Usize.Halves.{negate_lem}
use e.Usize.Signed.{
  value, IsWords, int_of, int_of_double, value-double_negate, negate-magnitude, magnitude-int_of,
  is_negative-below_zero, double_negate-IsWords, int_of-signed,
}
use e.Double.{double_negate}
use e.Double.LongDivide.Exact.{long_divide_lem}
use e.Usize.LeadingZeros.{clz-Normalizes}
use e.Double.Divide.{ndiv, finish_narrow}

-- A dividend without its sign.
double-magnitude :
    (n : Double)
    → IsWords n
    → value (if is_negative n.high then double_negate n else n) ≡ magnitude (int_of_double n)
unfolding is_negative
double-magnitude n words = ground (arith, value-double_negate n words)

is_negative-below_zero_double :
    (n : Double) → IsWords n → is_negative n.high ≡ below_zero (int_of_double n)
unfolding is_negative
is_negative-below_zero_double n words = ground arith

double-IsWords :
    (n : Double) → IsWords n → IsWords (if is_negative n.high then double_negate n else n)
double-IsWords n words = ground (arith, double_negate-IsWords n)

magnitude-ne_zero : (d : ℕ) → d < 2 ^ 64 → d ≢ 0 → magnitude (int_of d) ≢ 0
magnitude-ne_zero d word ne = ground arith

-- What is shifted up by the zeros above it comes back.
unshifted_lem : (k : ℕ) → k ≢ 0 → k < 2 ^ 64 → k * 2 ^ clz k % modulus / 2 ^ clz k ≡ k
unshifted_lem k ne word =
    let top = clz-Normalizes k word ne in
    rw (mod-eq_of_lt top.1) (mul-div_left k {n = 2 ^ clz k} (one-le-pow (clz k) 2 (omega arith)))

-- The signed results that the last part of the division makes of those without sign.
module _ (flags k q r : ℕ) (flag : has_flag flags f_signed ≡ true) (q_small : q < 2 ^ 63)
    (r_small : r < k) (k_small : k ≤ 2 ^ 63) where
  abbrev Finished : Bool → Bool → Type 0
  Finished n_negative d_negative =
      let down = has_flag flags f_floordiv && (not (r == 0) && xor n_negative d_negative) in
      (res : Division) × (finish_narrow true flags n_negative d_negative k (record { q = q; r = r })
        ≡ ok res)
      × (int_of res.q
          ≡ (if down then signed true (q + 1) else signed (xor n_negative d_negative) q))
      × (int_of res.r ≡ (if down then signed d_negative (k - r) else signed n_negative r))

  ltb_big : ltb ((2 ^ 64 - 1) / 2) q ≡ false
  ltb_big = ground arith

  signed_zero : (a : Bool) → ((if a then negate r else r) == 0) ≡ (r == 0)
  signed_zero true = ground (arith, negate_lem r (omega arith))
  signed_zero false = refl

  -- Where nothing is rounded down the signs are put back.
  signs_back :
      (a b : Bool) → (has_flag flags f_floordiv && (not (r == 0) && xor a b)) ≡ false → Finished a b
  unfolding finish_narrow is_negative
  signs_back a b plain = (
    record { q = if xor a b then negate q else q; r = if a then negate r else r },
    rw (flag, ltb_big, signed_zero a, plain) refl,
    rw plain (int_of-signed (xor a b) q (omega arith) (λ _. q_small)),
    rw plain (int_of-signed a r (omega arith) (λ _. omega arith)),
  )

  -- The facts of a division that is rounded down.
  down_facts :
      (a b : Bool)
      → (has_flag flags f_floordiv && (not (r == 0) && xor a b)) ≡ true
      → (has_flag flags f_floordiv ≡ true) × (r ≢ 0) × (xor a b ≡ true)
  down_facts a b down = ground arith

  lowered :
      (a b : Bool) → (has_flag flags f_floordiv && (not (r == 0) && xor a b)) ≡ true → Finished a b
  unfolding finish_narrow is_negative
  lowered true true down = let same : xor true true ≡ true = (down_facts true true down).2 in cc
  lowered false false down =
      let same : xor false false ≡ true = (down_facts false false down).2 in cc
  lowered true false down =
      let facts = down_facts true false down in
      (
        record { q = (negate q + modulus - 1) % modulus; r = (negate r + k) % modulus },
        rw (flag, ltb_big, signed_zero true, down) refl,
        rw down (ground (arith, negate_lem q (omega arith), facts.1)),
        rw down (ground (arith, negate_lem r (omega arith), facts.1)),
      )
  lowered false true down =
      let facts = down_facts false true down in
      (
        record { q = (negate q + modulus - 1) % modulus; r = (r + negate k) % modulus },
        rw (flag, ltb_big, down) refl,
        rw down (ground (arith, negate_lem q (omega arith), facts.1)),
        rw down (ground (arith, negate_lem k (omega arith), facts.1)),
      )

  outcome : (a b : Bool) → Finished a b
  outcome a b = elim (Bool-cases (has_flag flags f_floordiv && (not (r == 0) && xor a b))) [
    | inl down ↦ lowered a b down
    | inr plain ↦ signs_back a b plain
  ]

-- The two roundings of a signed division.
abbrev pub round_quot : ℕ → ℤ → ℤ → ℤ
round_quot flags a b = if has_flag flags f_floordiv then floor_quot_ℤ a b else quot_ℤ a b

abbrev pub round_rem : ℕ → ℤ → ℤ → ℤ
round_rem flags a b = if has_flag flags f_floordiv then floor_rem_ℤ a b else rem_ℤ a b

both_tests :
    (f b : Bool) (x y : ℤ) → (if f && b then x else y) ≡ (if f then (if b then x else y) else y)
both_tests true b x y = refl
both_tests false b x y = refl

high-fits : (high low m k : ℕ) → high * 2 ^ 64 + low ≡ m → m / k < 2 ^ 64 → k ≢ 0 → high < k
high-fits high low m k e small ne =
    let below : m < 2 ^ 64 * k = (div-lt_iff_lt-mul (omega arith)).0 small in omega arith

high-over : (high low m k : ℕ) → low < 2 ^ 64 → high * 2 ^ 64 + low ≡ m → 2 ^ 64 ≤ m / k → k ≤ high
high-over high low m k small e large =
    let most = div-add-mod' m k in
    let whole : 2 ^ 64 * k ≤ m / k * k = mul-le-mul large (le_refl k) in omega arith

refused :
    (flags k q r : ℕ) (a b : Bool)
    → has_flag flags f_signed ≡ true
    → 2 ^ 63 ≤ q
    → finish_narrow true flags a b k (record { q = q; r = r }) ≡ err e_rsltoutorange
unfolding finish_narrow is_negative
refused flags k q r a b flag large =
    let big : ltb ((2 ^ 64 - 1) / 2) q ≡ true = ground arith in rw (flag, big) refl

module _ (n : Double) (d flags : ℕ) (words : IsWords n) (word : d < 2 ^ 64) (ne : d ≢ 0)
    (flag : has_flag flags f_signed ≡ true) where
  narrow_fits :
      magnitude (int_of_double n) / magnitude (int_of d) < 2 ^ 64
      → ndiv n d flags true
        ≡ some (
            finish_narrow true flags
              (below_zero (int_of_double n))
              (below_zero (int_of d))
              (magnitude (int_of d))
              (record {
                q = magnitude (int_of_double n) / magnitude (int_of d);
                r = magnitude (int_of_double n) % magnitude (int_of d);
              }))
  unfolding ndiv
  narrow_fits small =
      let n' = if is_negative n.high then double_negate n else n in
      let d' = if is_negative d then negate d else d in
      let n_value = double-magnitude n words in
      let d_value = negate-magnitude d word in
      let k_small = magnitude-int_of d word in
      let k_ne = magnitude-ne_zero d word ne in
      let n_words = double-IsWords n words in
      let nz : (d == 0) ≡ false = ground arith in
      let fits : n'.high < d' = rw d_value (high-fits n'.high n'.low _ _ n_value small k_ne) in
      let in_range : leb d' n'.high ≡ false = ground arith in
      rw (
        flag,
        nz,
        in_range,
        long_divide_lem n'.high n'.low d' n_words.1 (omega arith) fits,
        flag,
        unshifted_lem d' (omega arith) (omega arith),
        n_value,
        d_value,
        is_negative-below_zero_double n words,
        is_negative-below_zero d,
      )

  -- With the signed flag, for a double word and a nonzero word whose magnitudes have a quotient
  -- below 2 ^ 63, e4__double_ndiv returns a quotient and a remainder: those of the two
  -- integers, rounded down under the floored flag and towards zero without it.
  pub ndiv_signed :
      magnitude (int_of_double n) / magnitude (int_of d) < 2 ^ 63
      → (res : Division) × (ndiv n d flags true ≡ some (ok res))
        × (int_of res.q ≡ round_quot flags (int_of_double n) (int_of d))
        × (int_of res.r ≡ round_rem flags (int_of_double n) (int_of d))
  ndiv_signed small =
      let done =
        outcome flags (magnitude (int_of d)) (magnitude (int_of_double n) / magnitude (int_of d))
          (magnitude (int_of_double n) % magnitude (int_of d)) flag small
          (mod-lt _ {m = magnitude (int_of d)} (omega (arith, magnitude-ne_zero d word ne)))
          (magnitude-int_of d word) (below_zero (int_of_double n)) (below_zero (int_of d)) in
      (
        done.0,
        rw (narrow_fits (omega arith)) (ap some done.1),
        done.2
            ∙ both_tests (has_flag flags f_floordiv) (rounds_down (int_of_double n) (int_of d)) _ _,
        done.3
            ∙ both_tests (has_flag flags f_floordiv) (rounds_down (int_of_double n) (int_of d)) _ _,
      )

  narrow_over :
      2 ^ 64 ≤ magnitude (int_of_double n) / magnitude (int_of d)
      → ndiv n d flags true ≡ some (err e_rsltoutorange)
  unfolding ndiv
  narrow_over large =
      let n' = if is_negative n.high then double_negate n else n in
      let d' = if is_negative d then negate d else d in
      let n_value = double-magnitude n words in
      let d_value = negate-magnitude d word in
      let n_words = double-IsWords n words in
      let nz : (d == 0) ≡ false = ground arith in
      let over : d' ≤ n'.high = rw d_value (high-over n'.high n'.low _ _ n_words.1 n_value large) in
      let out_of_range : leb d' n'.high ≡ true = ground arith in rw (flag, nz, out_of_range) refl

  -- With the signed flag, where the quotient is asked for, e4__double_ndiv reports a result out
  -- of range for a double word and a nonzero word whose magnitudes have a quotient of 2 ^ 63 or
  -- more.
  pub ndiv_signed_refused :
      2 ^ 63 ≤ magnitude (int_of_double n) / magnitude (int_of d)
      → ndiv n d flags true ≡ some (err e_rsltoutorange)
  ndiv_signed_refused large =
      elim (dec_lt (magnitude (int_of_double n) / magnitude (int_of d)) (2 ^ 64)) [
        | yes small ↦ rw (narrow_fits small) (ap some (refused _ _ _ _ _ _ flag large))
        | no h ↦ narrow_over (omega arith)
      ]

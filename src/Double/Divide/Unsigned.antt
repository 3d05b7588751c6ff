-- ===== src/Double/Divide/Unsigned.antt =====
-- Without the signed flag both divisions are exact, and refuse what they have to refuse.
use native.Mathlib.Nat.{mod-lt, div-add-mod', div-lt_iff_lt-mul}
use e.Base.{
  ℕ, ◌+◌, ◌*◌, ◌/◌, ◌%◌, ◌^◌, ◌<◌, ◌≡◌, refl, arith, some, inl, inr, Bool-cases, ◌==◌, true, false,
  if◌then◌else◌, ap, ◌∙◌, leb, Bool, ◌&&◌, ltb, leb_false→lt,
}
use e.Errors.{ok, err, e_divbyzero, e_rsltoutorange}
use e.Usize.{Double, Division, is_negative, has_flag, f_signed}
use e.Usize.Signed.{value, IsWords}
use e.Double.{double_u}
use e.Double.LongDivide.Exact.{long_divide_lem, div-mod_unique}
use e.Double.Divide.{ndiv, div, finish_narrow, finish_wide, divide_words, WideDivision}

module _ (flags : ℕ) (plain : has_flag flags f_signed ≡ false) where
  no_sign : (b : Bool) → (has_flag flags f_signed && b) ≡ false
  no_sign b = rw plain

  finish_narrow_plain :
      (want_q a b : Bool) (d : ℕ) (res : Division)
      → a ≡ false
      → b ≡ false
      → finish_narrow want_q flags a b d res ≡ ok res
  unfolding finish_narrow
  finish_narrow_plain want_q a b d res ha hb = rw (ha, hb, plain) (ground arith)

  finish_wide_plain :
      (a b : Bool) (d : ℕ) (res : WideDivision)
      → a ≡ false
      → b ≡ false
      → finish_wide flags a b d res ≡ res
  unfolding finish_wide
  finish_wide_plain a b d res ha hb = rw (ha, hb, plain)

range_test : (n : Double) (d : ℕ) → IsWords n → leb (d * 2 ^ 64) (value n) ≡ leb d n.high
range_test n d words = ground arith

-- Without the signed flag, for any double word and any word e4__double_ndiv reports a zero
-- divisor, reports a quotient that does not fit a word, and otherwise returns the exact
-- quotient and remainder.
pub ndiv_unsigned :
    (n : Double) (d flags : ℕ) (want_q : Bool)
    → IsWords n
    → d < 2 ^ 64
    → has_flag flags f_signed ≡ false
    → ndiv n d flags want_q
      ≡ some (
          if d == 0
          then err e_divbyzero
          else if leb (d * 2 ^ 64) (value n)
          then err e_rsltoutorange
          else ok (record { q = value n / d; r = value n % d }))
unfolding ndiv
ndiv_unsigned n d flags want_q words word plain =
    rw (plain, range_test n d words)
      (elim (Bool-cases (d == 0)) [
        | inl z ↦ rw z
        | inr nz ↦ rw nz (elim (Bool-cases (leb d n.high)) [
          | inl over ↦ rw over
          | inr fits ↦
              rw (fits, long_divide_lem n.high n.low d words.1 word (leb_false→lt d n.high fits))
                (ap some (
                  finish_narrow_plain flags plain want_q _ _ _ _ (no_sign flags plain _)
                    (no_sign flags plain _)))
        ])
      ])

-- A double word divided in two steps, by its high word and then by what is left.
two_steps :
    (h l d : ℕ)
    → 0 < d
    → l < 2 ^ 64
    → let rest = h % d * 2 ^ 64 + l in
      (rest < d * 2 ^ 64)
      × (rest / d < 2 ^ 64)
      × (h / d * 2 ^ 64 + rest / d ≡ (h * 2 ^ 64 + l) / d)
      × (rest % d ≡ (h * 2 ^ 64 + l) % d)
two_steps h l d pos word =
    let rest = h % d * 2 ^ 64 + l in
    let below : rest < d * 2 ^ 64 = omega (arith, mod-lt h {m = d} pos) in
    let (q, r) =
      div-mod_unique (h * 2 ^ 64 + l) d (h / d * 2 ^ 64 + rest / d) (rest % d)
        (omega (arith, div-add-mod' h d, div-add-mod' rest d)) (mod-lt rest {m = d} pos) in
    (below, (div-lt_iff_lt-mul {k = d} {x = rest} {y = 2 ^ 64} pos).1 (omega arith), q, r)

ndiv_ok :
    (n : Double) (d whole : ℕ)
    → IsWords n
    → d < 2 ^ 64
    → n.high < d
    → value n ≡ whole
    → ndiv n d 0 true ≡ some (ok (record { q = whole / d; r = whole % d }))
ndiv_ok n d whole words word fits e =
    ndiv_unsigned n d 0 true words word refl ∙ rw (range_test n d words, e) (ground arith)

divide_words_lem :
    (n : Double) (d : ℕ)
    → IsWords n
    → d < 2 ^ 64
    → divide_words n d
      ≡ some (
          if d == 0
          then err e_divbyzero
          else ok (record {
            q = record { high = value n / d / 2 ^ 64; low = value n / d % 2 ^ 64 };
            r = value n % d;
          }))
unfolding divide_words
divide_words_lem n d words word = elim (Bool-cases (d == 0)) [
  | inl z ↦
      let none_below : ltb n.high d ≡ false = ground arith in
      rw (none_below, ndiv_unsigned (double_u n.high 0) d 0 true top_words word refl, z)
  | inr nz ↦ rw nz (elim (Bool-cases (ltb n.high d)) [
    | inl small ↦
        let fits : value n / d < 2 ^ 64 =
          (div-lt_iff_lt-mul {k = d} {x = value n} {y = 2 ^ 64} (ground arith)).1 (ground arith) in
        rw (small, ndiv_ok n d (value n) words word (ground arith) refl) (ground arith)
    | inr large ↦
        let (below, fits, whole, rest) = two_steps n.high n.low d (ground arith) words.1 in
        let rest_lt : n.high % d < d = mod-lt n.high {m = d} (ground arith) in
        rw
          (
            large,
            ndiv_ok (double_u n.high 0) d n.high top_words word (top_below (ground arith))
                top_value,
            ndiv_ok (double_u n.low (n.high % d)) d (n.high % d * 2 ^ 64 + n.low)
                (rest_words rest_lt) word (rest_below rest_lt) rest_value,
          )
          (ground arith)
  ])
]
  where
    top_words : IsWords (double_u n.high 0)
    top_words = unfold double_u in omega arith

    top_value : value (double_u n.high 0) ≡ n.high
    top_value = unfold double_u in omega arith

    top_below : 0 < d → (double_u n.high 0).high < d
    top_below h = unfold double_u in h

    rest_words : n.high % d < d → IsWords (double_u n.low (n.high % d))
    rest_words h = unfold double_u in omega arith

    rest_below : n.high % d < d → (double_u n.low (n.high % d)).high < d
    rest_below h = unfold double_u in h

    rest_value : value (double_u n.low (n.high % d)) ≡ n.high % d * 2 ^ 64 + n.low
    rest_value = unfold double_u in refl

-- Without the signed flag, for any double word and any word other than zero e4__double_div
-- returns the exact quotient as a double word and the exact remainder; for zero it reports the
-- division by zero.
pub div_unsigned :
    (n : Double) (d flags : ℕ)
    → IsWords n
    → d < 2 ^ 64
    → has_flag flags f_signed ≡ false
    → div n d flags
      ≡ some (
          if d == 0
          then err e_divbyzero
          else ok (record {
            q = record { high = value n / d / 2 ^ 64; low = value n / d % 2 ^ 64 };
            r = value n % d;
          }))
unfolding div
div_unsigned n d flags words word plain =
    rw (div, no_sign flags plain (is_negative n.high), no_sign flags plain (is_negative d))
      (rw (divide_words_lem n d words word) (elim (Bool-cases (d == 0)) [
        | inl z ↦ rw z
        | inr nz ↦ rw nz (
            ap (λ t. some (ok t))
              (finish_wide_plain flags plain _ _ _ _ (no_sign flags plain _)
                (no_sign flags plain _)))
      ]))

-- ===== src/Double/Divide.antt =====
-- e4__double_ndiv and e4__double_div of core/src/util/double.c.
pub mod Unsigned
pub mod Narrow
use e.Base.{
  ℕ, ◌+◌, ◌-◌, ◌*◌, ◌/◌, ◌%◌, ◌^◌, Bool, true, false, not, ◌&&◌, xor, Option, none, some, leb, ltb,
  ◌==◌, if◌then◌else◌,
}
use e.Errors.{Result, ok, err, e_divbyzero, e_rsltoutorange}
use e.Usize.{Double, Division, modulus, f_signed, f_floordiv, has_flag, is_negative, negate, clz}
use e.Double.{double_u, double_negate}
use e.Double.LongDivide.{long_divide}

-- The sign, the overflow test and the rounding of a signed quotient `q` and remainder `r`, with
-- `d` the divisor without its sign. `want_q` says that the pointer `q` is not NULL.
unfoldable pub finish_narrow : Bool → ℕ → Bool → Bool → ℕ → Division → Result Division
finish_narrow want_q flags n_negative d_negative d res =
    let is_signed = has_flag flags f_signed in
    let differ = xor n_negative d_negative in
    let q = if differ then negate res.q else res.q in
    let r = if n_negative then negate res.r else res.r in
    let floors = is_signed && (has_flag flags f_floordiv && (not (r == 0) && differ)) in
    if want_q && (is_signed && is_negative res.q)
    then err e_rsltoutorange
    else if floors
    then ok (record {
      q = (q + modulus - 1) % modulus;
      r = (r + (if d_negative then negate d else d)) % modulus;
    })
    else ok (record { q = q; r = r })

-- e4__double_ndiv; `none` is a loop that goes on.
unfoldable pub ndiv : Double → ℕ → ℕ → Bool → Option (Result Division)
ndiv n d flags want_q =
    let n_negative = has_flag flags f_signed && is_negative n.high in
    let d_negative = has_flag flags f_signed && is_negative d in
    let n' = if n_negative then double_negate n else n in
    let d' = if d_negative then negate d else d in
    let divided = long_divide n'.high n'.low d' in
    let unshifted = d' * 2 ^ clz d' % modulus / 2 ^ clz d' in
    if d == 0
    then some (err e_divbyzero)
    else if leb d' n'.high
    then some (err e_rsltoutorange)
    else elim divided [
      | none ↦ none
      | some res ↦ some (finish_narrow want_q flags n_negative d_negative unshifted res)
    ]

-- What e4__double_div writes through its two pointers.
pub record WideDivision : Type 0 where
  pub q : Double
  pub r : ℕ

-- The two calls of e4__double_ndiv, or the one where the quotient fits a word.
unfoldable pub divide_words : Double → ℕ → Option (Result WideDivision)
divide_words n d =
    let one_call = ndiv n d 0 true in
    let top_call = ndiv (double_u n.high 0) d 0 true in
    if ltb n.high d
    then elim one_call [
      | none ↦ none
      | some (err e) ↦ some (err e)
      | some (ok res) ↦ some (ok (record { q = record { high = 0; low = res.q }; r = res.r }))
    ]
    else elim top_call [
      | none ↦ none
      | some (err e) ↦ some (err e)
      | some (ok top) ↦ elim (ndiv (double_u n.low top.r) d 0 true) [
        | none ↦ none
        | some (err e) ↦ some (err e)
        | some (ok res) ↦ some (ok (record { q = record { high = top.q; low = res.q }; r = res.r }))
      ]
    ]

-- The signs and the rounding of e4__double_div, with `d` the divisor without its sign.
unfoldable pub finish_wide : ℕ → Bool → Bool → ℕ → WideDivision → WideDivision
finish_wide flags n_negative d_negative d res =
    let differ = xor n_negative d_negative in
    let q = if differ then double_negate res.q else res.q in
    let r = if n_negative then negate res.r else res.r in
    let floors =
      has_flag flags f_signed && (has_flag flags f_floordiv && (not (r == 0) && differ)) in
    if floors
    then record {
      q = record {
        high = if q.low == 0 then (q.high + modulus - 1) % modulus else q.high;
        low = (q.low + modulus - 1) % modulus;
      };
      r = (r + (if d_negative then negate d else d)) % modulus;
    }
    else record { q = q; r = r }

-- e4__double_div
unfoldable pub div : Double → ℕ → ℕ → Option (Result WideDivision)
div n d flags =
    let n_negative = has_flag flags f_signed && is_negative n.high in
    let d_negative = has_flag flags f_signed && is_negative d in
    let n' = if n_negative then double_negate n else n in
    let d' = if d_negative then negate d else d in
    elim (divide_words n' d') [
      | none ↦ none
      | some (err e) ↦ some (err e)
      | some (ok res) ↦ some (ok (finish_wide flags n_negative d_negative d' res))
    ]

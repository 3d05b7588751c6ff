-- ===== src/Mem/Pictured/Digits.antt =====
-- The digits that are written are those of the number.
use native.Mathlib.Nat.{pow-suc, pow-zero, div-eq_of_lt, div-le_self, div-lt_iff_lt-mul}
use e.Base.{
  ℕ, zero, suc, ◌/◌, ◌%◌, ◌^◌, ◌≤◌, ◌<◌, ◌≡◌, ◌≢◌, refl, arith, ap, sym, ◌∙◌, ◌==◌, ◌&&◌, true,
  false, Bytes, List, ◌∷◌, ◌++◌, map, some, length, ◌+◌, Bool-cases, inl, inr,
}
use e.Errors.{e_ok}
use e.Usize.{Double}
use e.Usize.Signed.{value, IsWords}
use e.Double.Divide.Unsigned.{div_unsigned}
use e.Mem.Number.{clamp_base}
use e.Mem.Number.Loop.{digits_loop}
use e.Mem.Pictured.{PicturedLoop, pno_byte, pno_digit, pno_loop}

-- A double word that stands for a number.
abbrev pub double_of : ℕ → Double
double_of n = record { high = n / 2 ^ 64; low = n % 2 ^ 64 }

-- One digit: the remainder by the base, and the quotient.
pub pno_digit_lem :
    (text : Bytes) (base : ℕ) (ud : Double)
    → IsWords ud
    → 2 ≤ base
    → base ≤ 36
    → pno_digit text base ud
      ≡ some (record {
        text = pno_byte (value ud % base) ∷ text;
        ud = double_of (value ud / base);
        res = e_ok;
      })
unfolding pno_digit clamp_base
pno_digit_lem text base ud words low high =
    let same : clamp_base base ≡ base = ground arith in
    let nz : (base == 0) ≡ false = ground arith in
    rw (pno_digit, same, div_unsigned ud base 0 words (omega arith) refl, nz) refl

module _ (base : ℕ) (low : 2 ≤ base) (high : base ≤ 36) where
  pub step_last :
      (len : ℕ) (text : Bytes) (ud : Double)
      → IsWords ud
      → value ud / base ≡ 0
      → pno_loop (suc len) text base ud
        ≡ some (record {
          pictured = record {
            text = pno_byte (value ud % base) ∷ text;
            ud = double_of (value ud / base);
            res = e_ok;
          };
          len = len;
        })
  unfolding pno_loop
  step_last len text ud words last =
      let done : (value ud / base / 2 ^ 64 == 0 && value ud / base % 2 ^ 64 == 0) ≡ true =
        ground arith in
      rw (pno_loop, pno_digit_lem text base ud words low high, done) refl

  pub step_more :
      (len : ℕ) (text : Bytes) (ud : Double)
      → IsWords ud
      → value ud / base ≢ 0
      → pno_loop (suc len) text base ud
        ≡ pno_loop len (pno_byte (value ud % base) ∷ text) base (double_of (value ud / base))
  unfolding pno_loop
  step_more len text ud words more =
      let left : (value ud / base / 2 ^ 64 == 0 && value ud / base % 2 ^ 64 == 0) ≡ false =
        ground arith in
      rw (pno_loop, pno_digit_lem text base ud words low high, left) refl

  -- The loop with room for more than the digits.
  pub loop_digits :
      (n len : ℕ) (ds : List ℕ) (text : Bytes) (ud : Double)
      → IsWords ud
      → n ≤ len
      → value ud < base ^ suc n
      → (s : PicturedLoop) × (pno_loop (suc len) (map pno_byte ds ++ text) base ud ≡ some s)
        × (s.pictured.text ≡ map pno_byte (digits_loop (suc n) base (value ud) ds) ++ text)
        × (s.pictured.ud ≡ double_of 0)
        × (s.pictured.res ≡ e_ok)
        × (s.len + length (digits_loop (suc n) base (value ud) ds) ≡ suc len + length ds)
  loop_digits zero len ds text ud words room fits =
      let below : value ud < base = grind (arith, pow-suc base 0, pow-zero base) in
      let none_left : value ud / base ≡ 0 = div-eq_of_lt below in
      let last : (value ud / base == 0) ≡ true = ground arith in
      (
        _,
        step_last len _ ud words none_left,
        rw last refl,
        ap double_of none_left,
        refl,
        rw last (omega arith),
      )
  loop_digits (suc n) zero ds text ud words room fits = absurd (omega arith)
  loop_digits (suc n) (suc len) ds text ud words room fits =
      elim (Bool-cases (value ud / base == 0)) [
        | inl last ↦
            let none_left : value ud / base ≡ 0 = ground arith in
            (
              _,
              step_last (suc len) _ ud words none_left,
              rw last refl,
              ap double_of none_left,
              refl,
              rw last (omega arith),
            )
        | inr more ↦
            let some_left : value ud / base ≢ 0 = ground arith in
            let v = value ud / base in
            let same : value (double_of v) ≡ v = omega arith in
            let small : v ≤ value ud = div-le_self (value ud) base in
            let fits' : v < base ^ suc n =
              (div-lt_iff_lt-mul (omega arith)).1 (rw (sym (pow-suc base (suc n))) fits) in
            let rest =
              loop_digits n len (value ud % base ∷ ds) text (double_of v) (omega arith)
                (omega arith) (rw same fits') in
            let d = value ud % base in
            (
              rest.0,
              step_more (suc len) _ ud words some_left ∙ rest.1,
              rw more (
                  rest.2
                  ∙ ap (λ k. map pno_byte (digits_loop (suc n) base k (d ∷ ds)) ++ text) same),
              rest.3,
              rest.4,
              rw more (
                  ap (λ k. rest.0.len + length (digits_loop (suc n) base k (d ∷ ds))) (sym same)
                  ∙ rest.5
                  ∙ omega arith),
            )
      ]

pub length-digits_loop :
    (room base v : ℕ) (ds : List ℕ) → length (digits_loop room base v ds) ≤ room + length ds
length-digits_loop zero base v ds = omega arith
length-digits_loop (suc room) base v ds = elim (Bool-cases (v / base == 0)) [
  | inl last ↦ rw last (omega arith)
  | inr more ↦ rw more (omega (arith, length-digits_loop room base (v / base) (v % base ∷ ds)))
]

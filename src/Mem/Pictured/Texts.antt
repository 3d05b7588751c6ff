-- ===== src/Mem/Pictured/Texts.antt =====
-- The text of a double word, where there is room for all of its digits.
use native.Mathlib.Nat.{pow-le-pow_left}
use e.Base.{
  ℕ, zero, suc, ◌+◌, ◌*◌, ◌^◌, ◌≤◌, ◌<◌, ◌≡◌, refl, arith, ap, ◌∙◌, List, [], ◌∷◌, map, length, All,
  some, append-nil,
}
use e.Errors.{e_ok}
use e.Usize.{Double}
use e.Usize.Signed.{value, IsWords}
use e.Mem.Number.Loop.{digits_loop, horner, horner-digits, digits_below}
use e.Mem.Pictured.{PicturedLoop, pno_loop, pno_byte}
use e.Mem.Pictured.Numerals.{numeral, map-pno_byte}
use e.Mem.Pictured.Digits.{loop_digits, length-digits_loop}

pub length-numerals : (ds : List ℕ) → length (map numeral ds) ≡ length ds
length-numerals [] = refl
length-numerals (d ∷ ds) = ap suc (length-numerals ds)

-- A number that is not below the base has two digits or more.
pub two_digits :
    (base : ℕ) (ds : List ℕ)
    → All (λ d. d < base) ds
    → 1 ≤ base
    → base ≤ horner base 0 ds
    → 2 ≤ length ds
two_digits base [] below low large = absurd (omega arith)
two_digits base (d ∷ []) below low large =
    let zero_times : 0 * base ≡ 0 = omega arith in let first = below.0 in absurd (omega arith)
two_digits base (_ ∷ _ ∷ ds) below low large = omega arith

-- A double word has 128 digits at most.
pub digits_text :
    (n base len : ℕ) (ud : Double)
    → n ≡ 127
    → IsWords ud
    → 2 ≤ base
    → base ≤ 36
    → 128 ≤ len
    → (s : PicturedLoop) × (ds : List ℕ) × (pno_loop len [] base ud ≡ some s)
      × (s.pictured.text ≡ map numeral ds)
      × (horner base 0 ds ≡ value ud)
      × All (λ d. d < base) ds
      × (s.pictured.res ≡ e_ok)
      × (s.len + length ds ≡ len)
      × (length ds ≤ 128)
digits_text n base zero ud size words low high room = absurd (omega arith)
digits_text n base (suc len) ud size words low high room =
    let power : 2 ^ suc n ≤ base ^ suc n = pow-le-pow_left low (suc n) in
    let whole : 2 ^ suc n ≡ 2 ^ 128 = ap (λ (k : ℕ). 2 ^ suc k) size in
    let fits : value ud < base ^ suc n = omega arith in
    let ran = loop_digits base low high n len [] [] ud words (omega arith) fits in
    let ds = digits_loop (suc n) base (value ud) [] in
    let below = digits_below (suc n) base (value ud) [] low tt in
    (
      ran.0,
      ds,
      ran.1,
      ran.2 ∙ append-nil (map pno_byte ds) ∙ map-pno_byte base ds high below,
      horner-digits (suc n) base (value ud) [] fits low,
      below,
      ran.4,
      ran.5 ∙ omega arith,
      omega (arith, length-digits_loop (suc n) base (value ud) []),
    )

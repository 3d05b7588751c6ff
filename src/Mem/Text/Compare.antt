-- ===== src/Mem/Text/Compare.antt =====
-- When e4__mem_strncasecmp finds two texts equal.
use e.Base.{
  ℕ, zero, suc, ◌<◌, ◌≤◌, ◌≡◌, ◌≢◌, refl, arith, ◌==◌, Bytes, [], ◌∷◌, map, length, take, Bool,
  true, false, Bool-cases, inl, inr, All, if◌then◌else◌,
}
use e.Base.Int.{ℤ, pos, negsuc}
use e.Mem.Number.{tolower}
use e.Mem.Text.{strncasecmp, char_difference}

-- `!e4__mem_strncasecmp(…)`
abbrev pub is_zero : ℤ → Bool
is_zero (pos zero) = true
is_zero (pos (suc n)) = false
is_zero (negsuc n) = false

-- A character of a text: a byte that is not zero.
abbrev pub IsChar : ℕ → Type 0
IsChar c = (c ≢ 0) × (c < 256)

abbrev pub folded : Bytes → Bytes
folded s = map tolower s

abbrev pub texts_equal : Bytes → Bytes → Bool
texts_equal [] [] = true
texts_equal [] (_ ∷ _) = false
texts_equal (_ ∷ _) [] = false
texts_equal (a ∷ xs) (b ∷ ys) = if a == b then texts_equal xs ys else false

differ-is_zero :
    (a b : ℕ) → a < 256 → b < 256 → (a == b) ≡ false → is_zero (char_difference a b) ≡ false
differ-is_zero a b ha hb ne = ground arith

-- On two texts of the same length without zero bytes, compared over that length,
-- e4__mem_strncasecmp returns 0 just when they agree but for case.
pub strncasecmp_lem :
    (left right : Bytes)
    → All IsChar left
    → All IsChar right
    → length left ≡ length right
    → is_zero (strncasecmp left right (length left)) ≡ texts_equal (folded left) (folded right)
unfolding strncasecmp
strncasecmp_lem [] [] hl hr same = refl
strncasecmp_lem [] (r ∷ right) hl hr same = absurd (omega arith)
strncasecmp_lem (l ∷ left) [] hl hr same = absurd (omega arith)
strncasecmp_lem (l ∷ left) (r ∷ right) hl hr same =
    let ih = strncasecmp_lem left right hl.1 hr.1 (omega arith) in
    let full : (l == 0) ≡ false = ground arith in
    elim (Bool-cases (tolower l == tolower r)) [
      | inl agree ↦ rw (agree, full) ih
      | inr other ↦ rw other (differ-is_zero _ _ (ground arith) (ground arith) other)
    ]

-- The same with a first text that is longer, of which as many characters are compared.
pub strncasecmp-take :
    (left right : Bytes)
    → All IsChar left
    → All IsChar right
    → length right ≤ length left
    → is_zero (strncasecmp left right (length right))
      ≡ texts_equal (folded (take (length right) left)) (folded right)
unfolding strncasecmp
strncasecmp-take left [] hl hr short = refl
strncasecmp-take [] (r ∷ right) hl hr short = absurd (omega arith)
strncasecmp-take (l ∷ left) (r ∷ right) hl hr short =
    let ih = strncasecmp-take left right hl.1 hr.1 (omega arith) in
    let full : (l == 0) ≡ false = ground arith in
    elim (Bool-cases (tolower l == tolower r)) [
      | inl agree ↦ rw (agree, full) ih
      | inr other ↦ rw other (differ-is_zero _ _ (ground arith) (ground arith) other)
    ]

-- ===== src/Mem/Number/Loop.antt =====
-- The loops of e4__usize_format and e4__mem_number on digits.
use native.Mathlib.Nat.{mod-lt, div-add-mod', pow-suc, pow-zero, div-lt_iff_lt-mul, mul-le-mul_left}
use e.Base.{
  ℕ, zero, suc, ◌+◌, ◌*◌, ◌/◌, ◌%◌, ◌^◌, ◌≤◌, ◌<◌, ◌≡◌, refl, arith, ap, sym, ◌∙◌, List, [], ◌∷◌,
  ◌++◌, map, append_assoc, length, length-append, get_or, All, ◌==◌, if◌then◌else◌, Bool, true,
  false, Bool-cases, inl, inr, some, ltb, leb, Bytes,
}
use e.Usize.{modulus}
use e.Usize.Format.{digit_byte, usize_digit, format_loop}
use e.Mem.Number.{digit_value, scan_digits, Scan}

-- The number that digits stand for, the highest first, after `r`.
abbrev pub horner : ℕ → ℕ → List ℕ → ℕ
horner base r [] = r
horner base r (d ∷ ds) = horner base (r * base + d) ds

-- The digits that the loop writes, as numbers.
abbrev pub digits_loop : ℕ → ℕ → ℕ → List ℕ → List ℕ
digits_loop zero base n ds = ds
digits_loop (suc room) base n ds =
    let longer = digits_loop room base (n / base) (n % base ∷ ds) in
    if n / base == 0 then n % base ∷ ds else longer

pub format_loop-digits :
    (room base n : ℕ) (ds : List ℕ)
    → format_loop room base n (map digit_byte ds) ≡ map digit_byte (digits_loop room base n ds)
unfolding format_loop usize_digit
format_loop-digits zero base n ds = refl
format_loop-digits (suc room) base n ds = elim (Bool-cases (n / base == 0)) [
  | inl last ↦ rw last refl
  | inr more ↦ rw more (format_loop-digits room base (n / base) (n % base ∷ ds))
]

last_digit : (n base : ℕ) → (n / base == 0) ≡ true → 0 * base + n % base ≡ n
last_digit n base last =
    let zero_left : n / base ≡ 0 = ground arith in
    let whole = rw zero_left at (div-add-mod' n base) in omega arith

pub horner-digits :
    (room base n : ℕ) (ds : List ℕ)
    → n < base ^ room
    → 2 ≤ base
    → horner base 0 (digits_loop room base n ds) ≡ horner base n ds
horner-digits zero base n ds fits two =
    let none_left : n ≡ 0 = omega (arith, pow-zero base) in rw none_left refl
horner-digits (suc room) base n ds fits two = elim (Bool-cases (n / base == 0)) [
  | inl last ↦ rw last (ap (λ r. horner base r ds) (last_digit n base last))
  | inr more ↦ rw more (
      horner-digits room base (n / base) (n % base ∷ ds)
        ((div-lt_iff_lt-mul (omega arith)).1 (rw (sym (pow-suc base room)) fits)) two
      ∙ ap (λ r. horner base r ds) (div-add-mod' n base))
]

pub digits_below :
    (room base n : ℕ) (ds : List ℕ)
    → 2 ≤ base
    → All (λ d. d < base) ds
    → All (λ d. d < base) (digits_loop room base n ds)
digits_below zero base n ds two below = below
digits_below (suc room) base n ds two below = elim (Bool-cases (n / base == 0)) [
  | inl last ↦ rw last (mod-lt n {m = base} (omega arith), below)
  | inr more ↦ rw more (
      digits_below room base (n / base) (n % base ∷ ds) two
        (mod-lt n {m = base} (omega arith), below))
]

horner_grows : (base r : ℕ) (ds : List ℕ) → 1 ≤ base → r ≤ horner base r ds
horner_grows base r [] pos = omega arith
horner_grows base r (d ∷ ds) pos =
    let rest = horner_grows base (r * base + d) ds pos in
    let up : r * 1 ≤ r * base = mul-le-mul_left r pos in omega arith

digit_value-digit_byte : (d : ℕ) → d < 36 → digit_value (digit_byte d) ≡ some d
unfolding digit_value digit_byte
digit_value-digit_byte d small = ground arith

get_or-append : (pre : Bytes) (b : ℕ) (bs : Bytes) → get_or (pre ++ b ∷ bs) (length pre) 0 ≡ b
get_or-append [] b bs = refl
get_or-append (_ ∷ pre) b bs = get_or-append pre b bs

abbrev pub some_digit : List ℕ → Bool → Bool
some_digit [] number = number
some_digit (_ ∷ _) number = true

some_digit-true : (ds : List ℕ) → some_digit ds true ≡ true
some_digit-true [] = refl
some_digit-true (_ ∷ _) = refl

scan_step :
    (fuel : ℕ) (buf : Bytes) (length base : ℕ) (s : Scan) (d : ℕ)
    → ltb s.pos length ≡ true
    → digit_value (get_or buf s.pos 0) ≡ some d
    → leb base d ≡ false
    → scan_digits (suc fuel) buf length base s
      ≡ scan_digits fuel buf length base (record {
        pos = s.pos + 1;
        number = true;
        result = (s.result * base % modulus + d) % modulus;
      })
unfolding scan_digits
scan_step fuel buf length base s d inside value small = rw (scan_digits, inside, value, small) refl

-- The loop takes in all the digits, where the number fits a word.
pub scan_digits-bytes :
    (base : ℕ) (ds : List ℕ) (pre : Bytes) (number : Bool) (r : ℕ)
    → 1 ≤ base
    → base ≤ 36
    → All (λ d. d < base) ds
    → horner base r ds < 2 ^ 64
    → scan_digits
        (length ds)
        (pre ++ map digit_byte ds)
        (length pre + length ds)
        base
        (record { pos = length pre; number = number; result = r })
      ≡ record {
        pos = length pre + length ds;
        number = some_digit ds number;
        result = horner base r ds;
      }
unfolding scan_digits
scan_digits-bytes base [] pre number r low high below fits =
    let end : length pre + 0 ≡ length pre = omega arith in rw end refl
scan_digits-bytes base (d ∷ ds) pre number r low high below fits =
    let inside : ltb (length pre) (length pre + suc (length ds)) ≡ true = ground arith in
    let small : leb base d ≡ false = ground arith in
    let grows = horner_grows base (r * base + d) ds low in
    let step : (r * base % modulus + d) % modulus ≡ r * base + d = omega arith in
    let rest =
      scan_digits-bytes base ds (pre ++ digit_byte d ∷ []) true (r * base + d) low high below.1
        fits in
    let before : length (pre ++ digit_byte d ∷ []) ≡ length pre + 1 =
      length-append pre (digit_byte d ∷ []) in
    let after : length pre + 1 + length ds ≡ length pre + suc (length ds) = omega arith in
    let here : digit_value (get_or (pre ++ map digit_byte (d ∷ ds)) (length pre) 0) ≡ some d =
      rw (get_or-append pre (digit_byte d) (map digit_byte ds))
        (digit_value-digit_byte d (omega arith)) in
    scan_step (length ds) _ _ base _ d inside here small
    ∙ rw step (
        rw
          (
            append_assoc pre (digit_byte d ∷ []) (map digit_byte ds),
            before,
            after,
            some_digit-true ds,
          )
          at rest)

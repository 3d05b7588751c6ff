-- ===== src/Mem/Number/RoundTrip.antt =====
-- e4__mem_number reads back what e4__usize_format writes.
use native.Mathlib.Nat.{pow-suc, mul-le-mul_left}
use e.Base.{
  ℕ, zero, suc, ◌+◌, ◌-◌, ◌*◌, ◌/◌, ◌%◌, ◌^◌, ◌≤◌, ◌<◌, ◌≡◌, refl, arith, ap, List, [], ◌∷◌, map,
  length, get_or, All, ◌==◌, Bool, true, false, ◌&&◌, Bool-cases, inl, inr, some,
}
use e.Base.Int.{magnitude}
use e.Usize.{has_flag, f_signed, is_negative, negate}
use e.Usize.Signed.{int_of, negate-magnitude}
use e.Usize.Halves.{negate_lem}
use e.Usize.Format.{digit_byte, format}
use e.Mem.Number.{mem_number, clamp_base, f_neg_prefix, f_base_prefix, f_char_literal}
use e.Mem.Number.Loop.{
  horner, digits_loop, format_loop-digits, horner-digits, digits_below, scan_digits-bytes,
  some_digit,
}

clamp_base_lem : (base : ℕ) → 2 ≤ base → base ≤ 36 → clamp_base base ≡ base
unfolding clamp_base
clamp_base_lem base low high = ground arith

length-map : (ds : List ℕ) → length (map digit_byte ds) ≡ length ds
length-map [] = refl
length-map (d ∷ ds) = ap suc (length-map ds)

-- Some digit is written where there is room for one, or where there was one before.
digits_written :
    (room base n : ℕ) (ds : List ℕ) → some_digit (digits_loop (suc room) base n ds) false ≡ true
digits_written room base n ds = elim (Bool-cases (n / base == 0)) [
  | inl last ↦ rw last refl
  | inr more ↦ rw more (rest room (n / base) (n % base) ds)
]
  where
    rest :
        (room' n' d : ℕ) (ds' : List ℕ)
        → some_digit (digits_loop room' base n' (d ∷ ds')) false ≡ true
    rest zero n' d ds' = refl
    rest (suc room') n' d ds' = elim (Bool-cases (n' / base == 0)) [
      | inl last ↦ rw last refl
      | inr more ↦ rw more (rest room' (n' / base) (n' % base) (d ∷ ds'))
    ]

digit_byte-ne : (d : ℕ) → d < 36 → (digit_byte d == 45) ≡ false
unfolding digit_byte
digit_byte-ne d small = ground arith

no_sign : (ds : List ℕ) → All (λ d. d < 36) ds → (get_or (map digit_byte ds) 0 0 == 45) ≡ false
no_sign [] below = refl
no_sign (d ∷ ds) below = digit_byte-ne d below.0

weaken : (base : ℕ) (ds : List ℕ) → base ≤ 36 → All (λ d. d < base) ds → All (λ d. d < 36) ds
weaken base [] high below = below
weaken base (d ∷ ds) high below = (omega (arith, below.0), weaken base ds high below.1)

both_false : (b : Bool) → (b && false) ≡ false
both_false true = refl
both_false false = refl

module _ (base flags : ℕ) (ds : List ℕ) (low : 2 ≤ base) (high : base ≤ 36)
    (below : All (λ d. d < base) ds) (fits : horner base 0 ds < 2 ^ 64)
    (full : some_digit ds false ≡ true) (no_base : has_flag flags f_base_prefix ≡ false)
    (no_char : has_flag flags f_char_literal ≡ false) where
  read_digits :
      mem_number (map digit_byte ds) (length (map digit_byte ds)) base flags
      ≡ some (record { taken = length (map digit_byte ds); out = horner base 0 ds })
  unfolding mem_number
  read_digits =
      let scanned = scan_digits-bytes base ds [] false 0 (omega arith) high below fits in
      let end : 0 + length ds ≡ length ds = omega arith in
      let whole : length ds - 0 ≡ length ds = omega arith in
      rw
        (
          no_char,
          no_base,
          no_sign ds (weaken base ds high below),
          both_false (has_flag flags f_neg_prefix),
          clamp_base_lem base low high,
          length-map ds,
        )
        (rw (whole, rw end at scanned, full) refl)

  read_negative :
      has_flag flags f_neg_prefix ≡ true
      → mem_number (45 ∷ map digit_byte ds) (length (45 ∷ map digit_byte ds)) base flags
        ≡ some (record { taken = length (45 ∷ map digit_byte ds); out = negate (horner base 0 ds) })
  unfolding mem_number
  read_negative signs =
      let scanned = scan_digits-bytes base ds (45 ∷ []) false 0 (omega arith) high below fits in
      let end : 1 + length ds ≡ suc (length ds) = omega arith in
      let whole : suc (length ds) - 1 ≡ length ds = omega arith in
      rw (no_char, no_base, signs, clamp_base_lem base low high, length-map ds)
        (rw (whole, rw end at scanned, full) refl)

-- For a base from 2 to 36 and a buffer with room for the digits, reading what is written of a word
-- without the signed flag takes in all of it and gives the word back. The reader may look for a
-- minus sign, and does not look for base prefixes or character literals.
pub mem_number-format :
    (n base room flags number_flags : ℕ)
    → n < 2 ^ 64
    → 2 ≤ base
    → base ≤ 36
    → n < base ^ suc room
    → has_flag flags f_signed ≡ false
    → has_flag number_flags f_base_prefix ≡ false
    → has_flag number_flags f_char_literal ≡ false
    → mem_number
        (format n base flags (suc room))
        (length (format n base flags (suc room)))
        base
        number_flags
      ≡ some (record { taken = length (format n base flags (suc room)); out = n })
unfolding format
mem_number-format n base room flags number_flags word low high fits plain no_base no_char =
    let ds = digits_loop (suc room) base n [] in
    let below = digits_below (suc room) base n [] low tt in
    let whole : suc room - 0 ≡ suc room = omega arith in
    let value : horner base 0 ds ≡ n = horner-digits (suc room) base n [] fits low in
    rw (plain, whole, format_loop-digits (suc room) base n [])
      (rw value at (
        read_digits base number_flags ds low high below (rw value word)
          (digits_written room base n []) no_base no_char))

-- For a base from 2 to 36 and a buffer with room for a sign and the digits, reading what is written
-- of a signed word, with the minus sign looked for and without base prefixes and character
-- literals, takes in all of it and gives the word back; the most negative word is included.
pub mem_number-format_signed :
    (n base room flags number_flags : ℕ)
    → n < 2 ^ 64
    → 2 ≤ base
    → base ≤ 36
    → magnitude (int_of n) < base ^ suc room
    → has_flag flags f_signed ≡ true
    → has_flag number_flags f_neg_prefix ≡ true
    → has_flag number_flags f_base_prefix ≡ false
    → has_flag number_flags f_char_literal ≡ false
    → mem_number
        (format n base flags (suc room + 1))
        (length (format n base flags (suc room + 1)))
        base
        number_flags
      ≡ some (record { taken = length (format n base flags (suc room + 1)); out = n })
unfolding format
mem_number-format_signed n base room flags number_flags word low high fits flag signs no_base
      no_char =
    elim (Bool-cases (is_negative n)) [
      | inl negative ↦
          let m = negate n in
          let bytes : suc room + 1 - 1 ≡ suc room = omega arith in
          let size : m < 2 ^ 64 = omega (arith, negate_lem n word) in
          let mag : m ≡ magnitude (int_of n) = rw negative at (negate-magnitude n word) in
          let fits' : m < base ^ suc room = omega arith in
          let ds = digits_loop (suc room) base m [] in
          let value : horner base 0 ds ≡ m = horner-digits (suc room) base m [] fits' low in
          let back : negate m ≡ n = omega (arith, negate_lem n word, negate_lem m size) in
          rw (flag, negative, bytes, format_loop-digits (suc room) base m [])
            (rw (value, back) at
              (read_negative base number_flags ds low high
                (digits_below (suc room) base m [] low tt) (rw value size)
                (digits_written room base m []) no_base no_char signs))
      | inr positive ↦
          let bytes : suc room + 1 - 0 ≡ suc (suc room) = omega arith in
          let mag : n ≡ magnitude (int_of n) = rw positive at (negate-magnitude n word) in
          let wider : base ^ suc room * 1 ≤ base ^ suc room * base =
            mul-le-mul_left (base ^ suc room) (omega arith) in
          let small : n < base ^ suc (suc room) = omega (arith, pow-suc base (suc room)) in
          let ds = digits_loop (suc (suc room)) base n [] in
          let value : horner base 0 ds ≡ n = horner-digits (suc (suc room)) base n [] small low in
          rw (flag, positive, bytes, format_loop-digits (suc (suc room)) base n [])
            (rw value at (
              read_digits base number_flags ds low high
                (digits_below (suc (suc room)) base n [] low tt) (rw value word)
                (digits_written (suc room) base n []) no_base no_char))
    ]

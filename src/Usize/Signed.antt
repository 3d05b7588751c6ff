-- ===== src/Usize/Signed.antt =====
-- Words and double words as the numbers that they stand for, in two's complement.
use e.Base.{
  ℕ, ◌+◌, ◌-◌, ◌*◌, ◌%◌, ◌^◌, ◌≤◌, ◌<◌, ◌≡◌, refl, true, false, ap, ◌∙◌, arith, Bool, ltb,
  if◌then◌else◌,
}
use e.Base.Int.{ℤ, pos, negsuc, sub_ℕ, signed, below_zero, magnitude}
use e.Base.Bits
use e.Usize.{Double, is_negative, negate}
use e.Usize.Halves.{negate_lem}
use e.Double.{double_negate}

-- A word as a signed number.
abbrev pub int_of : ℕ → ℤ
int_of u = if ltb u (2 ^ 63) then pos u else negsuc (2 ^ 64 - u - 1)

-- A double word as an unsigned number.
abbrev pub value : Double → ℕ
value d = d.high * 2 ^ 64 + d.low

-- Both words of a double word fit their width.
abbrev pub IsWords : Double → Type 0
IsWords d = (d.high < 2 ^ 64) × (d.low < 2 ^ 64)

-- A double word as a signed number.
abbrev pub int_of_double : Double → ℤ
int_of_double d = if ltb (value d) (2 ^ 127) then pos (value d) else negsuc (2 ^ 128 - value d - 1)

pub double_negate-IsWords : (d : Double) → IsWords (double_negate d)
unfolding double_negate
double_negate-IsWords d = omega arith

-- Negating a double word takes it from 2 ^ 128.
pub value-double_negate :
    (d : Double) → IsWords d → value (double_negate d) ≡ (2 ^ 128 - value d) % 2 ^ 128
unfolding double_negate
value-double_negate d h =
    ground (arith, Bits.bit_xor-low_mask 64 d.low h.1, Bits.bit_xor-low_mask 64 d.high h.0)

int_of_value :
    (d : Double) (n : ℕ)
    → value d ≡ (2 ^ 128 - n) % 2 ^ 128
    → n < 2 ^ 127
    → int_of_double d ≡ sub_ℕ 0 n
int_of_value d n e h = ground arith

-- A product of two signed words, by their distances from zero and their signs.
pub int_of_double-pos : (d : Double) (n : ℕ) → value d ≡ n → n < 2 ^ 127 → int_of_double d ≡ pos n
int_of_double-pos d n e h = ground arith

pub int_of_double-double_negate :
    (d : Double) (n : ℕ)
    → IsWords d
    → value d ≡ n
    → n < 2 ^ 127
    → int_of_double (double_negate d) ≡ sub_ℕ 0 n
int_of_double-double_negate d n words e h =
    int_of_value (double_negate d) n
      (value-double_negate d words ∙ ap (λ t. (2 ^ 128 - t) % 2 ^ 128) e) h

pub is_negative-below_zero : (u : ℕ) → is_negative u ≡ below_zero (int_of u)
unfolding is_negative
is_negative-below_zero u = ground arith

-- The word that a signed operation works on once the sign is taken off.
pub negate-magnitude :
    (u : ℕ) → u < 2 ^ 64 → (if is_negative u then negate u else u) ≡ magnitude (int_of u)
unfolding is_negative
negate-magnitude u h = ground (arith, negate_lem u h)

pub magnitude-int_of : (u : ℕ) → u < 2 ^ 64 → magnitude (int_of u) ≤ 2 ^ 63
magnitude-int_of u h = ground arith

-- Putting a sign on a distance from zero, where the result fits a word.
pub int_of-signed :
    (negative : Bool) (m : ℕ)
    → m ≤ 2 ^ 63
    → (negative ≡ false → m < 2 ^ 63)
    → int_of (if negative then negate m else m) ≡ signed negative m
int_of-signed true m h k = ground (arith, negate_lem m (omega arith))
int_of-signed false m h k = ground (arith, k refl)

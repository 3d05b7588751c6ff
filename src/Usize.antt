-- ===== src/Usize.antt =====
-- core/src/util/usize.c and the e4__USIZE_ macros of core/include/e4.h, on a target whose
-- e4__usize has 64 bits: a value is a number below 2 ^ 64, and what C truncates is written out.
pub mod Halves
pub mod Signed
pub mod Multiply
pub mod Divide
pub mod LeadingZeros
pub mod Format
use e.Base.{
  ℕ, zero, suc, ◌+◌, ◌-◌, ◌*◌, ◌/◌, ◌%◌, ◌^◌, bit_and, bit_or, bit_xor, Bool, true, false, not, xor,
  Option, none, some, List, [], ◌∷◌, ltb, leb, ◌==◌, if◌then◌else◌, Bytes, ◌&&◌, ◌||◌,
}

abbrev pub usize_bit : ℕ
usize_bit = 64

abbrev pub modulus : ℕ
modulus = 2 ^ 64

-- `(e4__usize)-1`
abbrev pub max_usize : ℕ
max_usize = 2 ^ 64 - 1

-- e4__USIZE_IS_NEGATIVE
unfoldable pub is_negative : ℕ → Bool
is_negative u = ltb (max_usize / 2) u

-- e4__USIZE_NEGATE
unfoldable pub negate : ℕ → ℕ
negate u = (bit_xor u max_usize + 1) % modulus

-- e4__USIZE_HHMASK and e4__USIZE_LHMASK
abbrev pub hh_mask : ℕ
hh_mask = max_usize * 2 ^ 32 % modulus

abbrev pub lh_mask : ℕ
lh_mask = max_usize / 2 ^ 32

-- e4__USIZE_HH and e4__USIZE_LH, the two results of e4__USIZE_SPLIT
unfoldable pub high_half : ℕ → ℕ
high_half u = bit_and u hh_mask / 2 ^ 32

unfoldable pub low_half : ℕ → ℕ
low_half u = bit_and u lh_mask

-- e4__USIZE_U
unfoldable pub join : ℕ → ℕ → ℕ
join m l = bit_or (bit_and (m * 2 ^ 32 % modulus) hh_mask) (bit_and l lh_mask)

-- struct e4__double
pub record Double : Type 0 where
  pub high : ℕ
  pub low : ℕ

-- Arithmetic flags of core/include/e4.h, and the test `flags & f`.
abbrev pub f_signed : ℕ
f_signed = 0x01

abbrev pub f_floordiv : ℕ
f_floordiv = 0x02

abbrev pub has_flag : ℕ → ℕ → Bool
has_flag flags f = not (bit_and flags f == 0)

-- The loop of e4__usize_clz, with fuel for its seven tests of `w >>= 1`.
clz_loop : ℕ → ℕ → ℕ → ℕ → ℕ → ℕ
clz_loop zero w m u c = c
clz_loop (suc fuel) w m u c =
    let w' = w / 2 in
    let m' = m * 2 ^ w' % modulus in
    let shifted = clz_loop fuel w' m' (u * 2 ^ w' % modulus) (c + w') in
    let kept = clz_loop fuel w' m' u c in
    if w' == 0 then c else if bit_and m' u == 0 then shifted else kept

-- e4__usize_clz
unfoldable pub clz : ℕ → ℕ
unfolding clz_loop
clz u = if u == 0 then usize_bit else clz_loop 7 usize_bit max_usize u 0

-- A quotient and the remainder that is written through `r`.
pub record Division : Type 0 where
  pub q : ℕ
  pub r : ℕ

-- e4__usize_sdiv; `none` is the trap of a division by zero.
unfoldable pub sdiv : ℕ → ℕ → Option Division
sdiv n d =
    let n_negative = is_negative n in
    let d_negative = is_negative d in
    let n' = if n_negative then negate n else n in
    let d' = if d_negative then negate d else d in
    let q = n' / d' in
    let r = n' % d' in
    if d' == 0
    then none
    else some (record {
      q = if xor n_negative d_negative then negate q else q;
      r = if n_negative then negate r else r;
    })

-- e4__usize_todouble
unfoldable pub to_double : ℕ → Double
to_double n = record { high = if is_negative n then max_usize else 0; low = n }

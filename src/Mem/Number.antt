-- ===== src/Mem/Number.antt =====
-- e4__mem_number of core/src/util/mem.c. `buf` holds the bytes at the pointer and after it, of
-- which `length` are the text. tolower and isdigit are those of the C locale.
pub mod Loop
pub mod RoundTrip
use e.Base.{
  ℕ, zero, suc, ◌+◌, ◌-◌, ◌*◌, ◌%◌, Bool, true, false, ◌&&◌, ◌||◌, not, ltb, leb, ◌==◌,
  if◌then◌else◌, Bytes, get_or, Option, none, some,
}
use e.Usize.{modulus, has_flag, negate}

abbrev pub f_neg_prefix : ℕ
f_neg_prefix = 0x01

abbrev pub f_base_prefix : ℕ
f_base_prefix = 0x02

abbrev pub f_char_literal : ℕ
f_char_literal = 0x04

abbrev pub tolower : ℕ → ℕ
tolower c = if leb 65 c && leb c 90 then c + 32 else c

abbrev pub isdigit : ℕ → Bool
isdigit c = leb 48 c && leb c 57

-- A byte that is read as a signed `char` and widened.
abbrev pub widen : ℕ → ℕ
widen c = if ltb c 128 then c else modulus - 256 + c

-- The value of a digit or a letter, and `none` for any other character.
unfoldable pub digit_value : ℕ → Option ℕ
digit_value byte =
    let c = tolower byte in
    if isdigit c then some (c - 48) else if leb 97 c && leb c 122 then some (c - 97 + 10) else none

-- The base after clamping.
unfoldable pub clamp_base : ℕ → ℕ
clamp_base base = if ltb base 2 then 2 else if ltb 36 base then 36 else base

-- A base and the position at which the digits start.
pub record Prefix : Type 0 where
  pub base : ℕ
  pub pos : ℕ

-- The prefixes that set the base: '0x', '0o' and '0b' in either case, '$', '#' and '%'.
unfoldable pub base_prefix : Bytes → ℕ → ℕ → ℕ → Prefix
base_prefix buf length base pos =
    let c = get_or buf pos 0 in
    let d = get_or buf (pos + 1) 0 in
    let after_zero =
      if not (ltb 2 length)
      then record { base = base; pos = pos }
      else if d == 120 || d == 88
      then record { base = 16; pos = pos + 2 }
      else if d == 111 || d == 79
      then record { base = 8; pos = pos + 2 }
      else if d == 98 || d == 66
      then record { base = 2; pos = pos + 2 }
      else record { base = base; pos = pos } in
    if c == 48
    then after_zero
    else if c == 36
    then record { base = 16; pos = pos + 1 }
    else if c == 35
    then record { base = 10; pos = pos + 1 }
    else if c == 37
    then record { base = 2; pos = pos + 1 }
    else record { base = base; pos = pos }

-- The state of the loop over the digits.
pub record Scan : Type 0 where
  pub pos : ℕ
  pub number : Bool
  pub result : ℕ

-- The loop over the digits, with fuel for its rounds: one round for each byte that is left.
unfoldable pub scan_digits : ℕ → Bytes → ℕ → ℕ → Scan → Scan
scan_digits zero buf length base s = s
scan_digits (suc fuel) buf length base s = elim (ltb s.pos length) [
  | false ↦ s
  | true ↦ elim (digit_value (get_or buf s.pos 0)) [
    | none ↦ s
    | some d ↦ elim (leb base d) [
      | true ↦ s
      | false ↦ scan_digits fuel buf length base (record {
        pos = s.pos + 1;
        number = true;
        result = (s.result * base % modulus + d) % modulus;
      })
    ]
  ]
]

-- The count of characters that are taken and the number that is written through `out`.
pub record Number : Type 0 where
  pub taken : ℕ
  pub out : ℕ

-- e4__mem_number; `none` where it returns 0 and writes nothing.
unfoldable pub mem_number : Bytes → ℕ → ℕ → ℕ → Option Number
mem_number buf length base flags =
    let base' = clamp_base base in
    let negative = has_flag flags f_neg_prefix && get_or buf 0 0 == 45 in
    let pos = if negative then 1 else 0 in
    let prefix =
      if has_flag flags f_base_prefix && ltb 1 length
      then base_prefix buf length base' pos
      else record { base = base'; pos = pos } in
    let s =
      scan_digits (length - prefix.pos) buf length prefix.base
        (record { pos = prefix.pos; number = false; result = 0 }) in
    if has_flag flags f_char_literal
      && (ltb 2 length && (get_or buf 0 0 == 39 && get_or buf 2 0 == 39))
    then some (record { taken = 3; out = widen (get_or buf 1 0) })
    else if s.number
    then some (record { taken = s.pos; out = if negative then negate s.result else s.result })
    else none

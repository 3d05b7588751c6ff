-- ===== src/Mem/Text.antt =====
-- e4__mem_strncasecmp and e4__mem_parse of core/src/util/mem.c. A text is the list of the bytes
-- from a pointer on, which reads as 0 past its end.
pub mod Compare
pub mod Parse
use e.Base.{
  ℕ, zero, suc, ◌+◌, ◌-◌, ◌%◌, Bool, true, false, ◌&&◌, ◌||◌, not, ◌==◌, if◌then◌else◌, Bytes,
  get_or, drop, List, [], ◌∷◌,
}
use e.Base.Int.{ℤ, pos, sub_ℕ}
use e.Usize.{has_flag}
use e.Mem.Number.{tolower}

-- The difference of two values of type `char`, which is signed.
abbrev pub char_difference : ℕ → ℕ → ℤ
char_difference a b = sub_ℕ ((a + 128) % 256) ((b + 128) % 256)

-- e4__mem_strncasecmp
unfoldable pub strncasecmp : Bytes → Bytes → ℕ → ℤ
strncasecmp left right zero = pos 0
strncasecmp left right (suc n) =
    let l = get_or left 0 0 in
    let r = get_or right 0 0 in
    let rest = strncasecmp (drop 1 left) (drop 1 right) n in
    if not (tolower l == tolower r)
    then char_difference (tolower l) (tolower r)
    else if l == 0
    then pos 0
    else rest

abbrev pub f_skip_leading : ℕ
f_skip_leading = 0x01

abbrev pub f_ignore_esc : ℕ
f_ignore_esc = 0x02

-- The loop that skips the delimiter, on the `sz` bytes that are left.
unfoldable pub skip_delim : ℕ → Bytes → Bytes
skip_delim delim [] = []
skip_delim delim (c ∷ cs) = let rest = skip_delim delim cs in if c == delim then rest else c ∷ cs

-- The loop that counts the bytes up to the delimiter or the end of the line (10); a backslash (92)
-- takes the byte after it along. `escaped` says that the byte is one that is taken along.
unfoldable pub parse_length : ℕ → Bool → Bool → Bytes → ℕ
parse_length delim ignore_esc escaped [] = 0
parse_length delim ignore_esc escaped (c ∷ cs) =
    let taken = suc (parse_length delim ignore_esc false cs) in
    let escape = suc (parse_length delim ignore_esc true cs) in
    if escaped
    then taken
    else if c == delim || c == 10
    then 0
    else if ignore_esc && c == 92
    then escape
    else taken

-- The text that e4__mem_parse finds: where it starts, and its length.
pub record Parsed : Type 0 where
  pub out : Bytes
  pub length : ℕ

-- e4__mem_parse, on the `sz` bytes at the pointer.
unfoldable pub mem_parse : Bytes → ℕ → ℕ → Parsed
mem_parse buf delim flags =
    let start = if has_flag flags f_skip_leading then skip_delim delim buf else buf in
    record { out = start; length = parse_length delim (has_flag flags f_ignore_esc) false start }

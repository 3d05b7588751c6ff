-- ===== src/Mem/Escape.antt =====
-- e4__mem_strnescape of core/src/util/mem.c, and what a text is decoded to by it chunk by chunk, as
-- e4__compile_estr of core/src/kernel/compile.c does. 92 is the backslash.
pub mod Chunks
pub mod RoundTrip
use e.Base.{
  ℕ, zero, suc, ◌+◌, ◌-◌, ◌*◌, ◌%◌, Bool, true, false, ◌&&◌, ◌||◌, leb, ◌==◌, if◌then◌else◌, Bytes,
  List, [], ◌∷◌, ◌++◌, length, Option, none, some,
}
use e.Mem.Number.{tolower}

-- The chunk that is returned, and what is left of the text.
pub record Chunk : Type 0 where
  pub chunk : Bytes
  pub rest : Bytes

-- The loop over what is not a backslash.
unfoldable pub run : Bytes → Chunk
run [] = record { chunk = []; rest = [] }
run (c ∷ cs) =
    let more = run cs in
    if c == 92
    then record { chunk = []; rest = c ∷ cs }
    else record { chunk = c ∷ more.chunk; rest = more.rest }

-- A backslash that escapes nothing is taken as it is, with the run after it.
unfoldable pub literal_run : Bytes → Chunk
literal_run cs = record { chunk = 92 ∷ (run cs).chunk; rest = (run cs).rest }

-- The escapes of one letter that stand for one byte.
unfoldable pub single_escape : ℕ → Option ℕ
single_escape k =
    if k == 97
    then some 7
    else if k == 98
    then some 8
    else if k == 101
    then some 27
    else if k == 102
    then some 12
    else if k == 108 || k == 110
    then some 10
    else if k == 113 || k == 34
    then some 34
    else if k == 114
    then some 13
    else if k == 116
    then some 9
    else if k == 118
    then some 11
    else if k == 122
    then some 0
    else if k == 92
    then some 92
    else none

abbrev pub is_hex : ℕ → Bool
is_hex c = (leb 48 c && leb c 57) || (leb 97 c && leb c 102)

abbrev pub hex_value : ℕ → ℕ
hex_value c = if leb c 57 then c - 48 else c - 97 + 10

-- The escape of a byte by two digits, on the text after the 'x' (120).
unfoldable pub hex_escape : Bytes → Chunk
hex_escape (l ∷ r ∷ cs) =
    if is_hex (tolower l) && is_hex (tolower r)
    then record {
      chunk = (hex_value (tolower l) * 16 + hex_value (tolower r)) % 256 ∷ [];
      rest = cs;
    }
    else literal_run (120 ∷ l ∷ r ∷ cs)
hex_escape (l ∷ []) = literal_run (120 ∷ l ∷ [])
hex_escape [] = literal_run (120 ∷ [])

-- The text after a backslash.
unfoldable pub escape : Bytes → Chunk
escape [] = literal_run []
escape (k ∷ cs) = elim (single_escape k) [
  | some c ↦ record { chunk = c ∷ []; rest = cs }
  | none ↦
      if k == 109
      then record { chunk = 13 ∷ 10 ∷ []; rest = cs }
      else if k == 120
      then hex_escape cs
      else literal_run (k ∷ cs)
]

-- e4__mem_strnescape; `none` is NULL.
unfoldable pub strnescape : Bytes → Option Chunk
strnescape [] = none
strnescape (c ∷ cs) = if c == 92 then some (escape cs) else some (run (c ∷ cs))

-- All the chunks of a text, with fuel for their number.
unfoldable pub unescape : ℕ → Bytes → Bytes
unescape zero text = []
unescape (suc fuel) text = elim (strnescape text) [
  | none ↦ []
  | some c ↦ c.chunk ++ unescape fuel c.rest
]

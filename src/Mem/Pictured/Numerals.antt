-- ===== src/Mem/Pictured/Numerals.antt =====
-- The characters of digits, as a table: what pno_byte computes.
use e.Base.{
  ℕ, zero, suc, ◌<◌, ◌≤◌, ◌≡◌, refl, arith, ◌==◌, true, List, [], ◌∷◌, map, Bytes, codes, get_or,
  All,
}
use e.Base.Below.{every_below, every_below_lem, are_bytes_lem}
use e.Mem.Pictured.{pno_byte}

abbrev pub numerals : Bytes
numerals = codes "0123456789ABCDEFGHIJKLMNOPQRSTUVWXYZ"

abbrev pub numeral : ℕ → ℕ
numeral d = get_or numerals d 0

all_numerals : every_below 36 (λ d. pno_byte d == numeral d) ≡ true
unfolding pno_byte
all_numerals = refl

pub pno_byte_lem : (d : ℕ) → d < 36 → pno_byte d ≡ numeral d
pno_byte_lem d small =
    let same : (pno_byte d == numeral d) ≡ true =
      every_below_lem 36 (λ d. pno_byte d == numeral d) all_numerals d small in
    ground arith

pub map-pno_byte :
    (base : ℕ) (ds : List ℕ) → base ≤ 36 → All (λ d. d < base) ds → map pno_byte ds ≡ map numeral ds
map-pno_byte base [] high below = refl
map-pno_byte base (d ∷ ds) high below =
    rw (pno_byte_lem d (omega (arith, below.0)), map-pno_byte base ds high below.1) refl

get_or-lt : (table : Bytes) (d : ℕ) → All (λ c. c < 256) table → get_or table d 0 < 256
get_or-lt [] d bytes = omega arith
get_or-lt (c ∷ table) zero bytes = bytes.0
get_or-lt (c ∷ table) (suc d) bytes = get_or-lt table d bytes.1

numerals_bytes : All (λ c. c < 256) numerals
numerals_bytes = are_bytes_lem numerals refl

pub numeral-lt : (d : ℕ) → numeral d < 256
numeral-lt d = get_or-lt numerals d numerals_bytes

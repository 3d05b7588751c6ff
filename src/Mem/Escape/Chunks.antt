-- ===== src/Mem/Escape/Chunks.antt =====
-- What one call of e4__mem_strnescape takes from a text, and what it gives for it.
use e.Base.{
  ℕ, ◌≤◌, ◌<◌, ◌≡◌, refl, arith, ap, ◌&&◌, ◌==◌, Bytes, [], ◌∷◌, ◌++◌, length, Option, none, some,
  Bool-cases, inl, inr,
}
use e.Task.ByteAccess.{IsText}
use e.Mem.Number.{tolower}
use e.Mem.Escape.{Chunk, run, literal_run, single_escape, is_hex, hex_escape, escape, strnescape}
use e.Mem.Escape.RoundTrip.{run_parts}

-- A chunk of bytes and the rest of a text: the chunk is no longer than what was taken for it.
abbrev pub IsTaken : Bytes → Chunk → Type 0
IsTaken text c =
    (pre : Bytes) × (pre ++ c.rest ≡ text) × (length c.chunk ≤ length pre) × IsText c.chunk

IsText-append : (a b : Bytes) → IsText (a ++ b) → IsText a
IsText-append [] b text = tt
IsText-append (c ∷ a) b text = (text.0, IsText-append a b text.1)

run-IsText : (text : Bytes) → IsText text → IsText (run text).chunk
run-IsText text bytes = IsText-append (run text).chunk (run text).rest (rw (run_parts text).0 bytes)

literal_run-IsTaken : (cs : Bytes) → IsText cs → IsTaken (92 ∷ cs) (literal_run cs)
unfolding literal_run
literal_run-IsTaken cs bytes = (
  92 ∷ (run cs).chunk,
  ap (λ t. 92 ∷ t) (run_parts cs).0,
  omega arith,
  (omega arith, run-IsText cs bytes),
)

hex_escape-IsTaken : (cs : Bytes) → IsText cs → IsTaken (92 ∷ 120 ∷ cs) (hex_escape cs)
unfolding hex_escape
hex_escape-IsTaken [] bytes = literal_run-IsTaken (120 ∷ []) (omega arith, tt)
hex_escape-IsTaken (l ∷ []) bytes = literal_run-IsTaken (120 ∷ l ∷ []) (omega arith, bytes)
hex_escape-IsTaken (l ∷ r ∷ cs) bytes =
    elim (Bool-cases (is_hex (tolower l) && is_hex (tolower r))) [
      | inl hex ↦ rw hex (92 ∷ 120 ∷ l ∷ r ∷ [], refl, omega arith, (omega arith, tt))
      | inr other ↦ rw other (literal_run-IsTaken (120 ∷ l ∷ r ∷ cs) (omega arith, bytes))
    ]

single_escape-lt : (k c : ℕ) → single_escape k ≡ some c → c < 256
unfolding single_escape
single_escape-lt k c e = ground arith

escape-IsTaken : (cs : Bytes) → IsText cs → IsTaken (92 ∷ cs) (escape cs)
unfolding escape
escape-IsTaken [] bytes = literal_run-IsTaken [] tt
escape-IsTaken (k ∷ cs) bytes = for (single_escape k) refl
  where
    for : (o : Option ℕ) → single_escape k ≡ o → IsTaken (92 ∷ k ∷ cs) (escape (k ∷ cs))
    for (some c) e = rw (escape, e) (92 ∷ k ∷ [], refl, omega arith, (single_escape-lt k c e, tt))
    for none e = elim (Bool-cases (k == 109)) [
      | inl cr ↦
          rw (escape, e, cr) (92 ∷ k ∷ [], refl, omega arith, (omega arith, (omega arith, tt)))
      | inr other ↦ elim (Bool-cases (k == 120)) [
        | inl hex ↦
            let is_x : k ≡ 120 = ground arith in
            rw (escape, e, other, hex) (rw is_x (hex_escape-IsTaken cs bytes.1))
        | inr plain ↦ rw (escape, e, other, plain) (literal_run-IsTaken (k ∷ cs) bytes)
      ]
    ]

pub strnescape-IsTaken :
    (text : Bytes) (c : Chunk) → IsText text → strnescape text ≡ some c → IsTaken text c
unfolding strnescape
strnescape-IsTaken [] c bytes e = cc
strnescape-IsTaken (k ∷ cs) c bytes e = elim (Bool-cases (k == 92)) [
  | inl slash ↦
      let step : strnescape (k ∷ cs) ≡ some (escape cs) = rw (strnescape, slash) refl in
      let same : c ≡ escape cs = cc in
      let is_slash : k ≡ 92 = ground arith in rw same (rw is_slash (escape-IsTaken cs bytes.1))
  | inr other ↦
      let step : strnescape (k ∷ cs) ≡ some (run (k ∷ cs)) = rw (strnescape, other) refl in
      let same : c ≡ run (k ∷ cs) = cc in
      rw same ((run (k ∷ cs)).chunk, (run_parts (k ∷ cs)).0, omega arith, run-IsText (k ∷ cs) bytes)
]

-- ===== src/Mem/Ring/Escaped.antt =====
-- e4__mem_cbuf_epush of core/src/util/mem.c: the circular buffer takes a text that it decodes chunk
-- by chunk. A text that turns out not to fit at the end is moved to the beginning.
use e.Base.{
  ℕ, zero, suc, ◌+◌, ◌-◌, ◌≤◌, ◌≡◌, ◌≢◌, refl, sym, ap, ◌∙◌, arith, ltb, ◌==◌, ◌||◌, true, false,
  if◌then◌else◌, Option, none, some, [], ◌∷◌, ◌++◌, Bytes, length, inl, inr, Bool-cases, append-nil,
  append_assoc, length-append,
}
use e.Mem.Escape.{Chunk, strnescape, unescape}
use e.Mem.Ring.{Cbuf, Pushed, write, bytes_at, IsOffset, bytes_ext, write_outside, bytes_at-write}

-- memmove of `n` bytes from `from` to the beginning.
unfoldable pub move_down : (ℕ → ℕ) → ℕ → ℕ → ℕ → ℕ
move_down buf from n x = if ltb x n then buf (from + x) else buf x

-- The offset of the entry, NULL where it does not fit, and the buffer.
pub record Epushed : Type 0 where
  pub entry : Option ℕ
  pub sz : ℕ
  pub cbuf : Cbuf

-- The end of a round: a chunk is copied to the end of the entry.
abbrev pub store_chunk : ℕ → Cbuf → Bytes → Pushed
store_chunk entry cbuf chunk = record {
  entry = entry;
  cbuf = record cbuf {
    buf = write cbuf.buf cbuf.offset chunk;
    offset = cbuf.offset + length chunk;
  };
}

-- The entry so far is moved to the beginning.
abbrev pub move_entry : ℕ → Cbuf → Cbuf
move_entry start cbuf = record cbuf {
  buf = move_down cbuf.buf start (cbuf.offset - start);
  offset = cbuf.offset - start;
}

-- One chunk: `none` where it is larger than the buffer with what is there of the entry.
unfoldable pub epush_chunk : ℕ → Cbuf → Bytes → Option Pushed
epush_chunk start cbuf chunk =
    let moved = some (store_chunk 0 (move_entry start cbuf) chunk) in
    if ltb (cbuf.sz - cbuf.offset) (length chunk)
    then (if start == 0 || ltb (cbuf.sz - (cbuf.offset - start)) (length chunk)
        then none
        else moved)
    else some (store_chunk start cbuf chunk)

-- The loop over the chunks, with fuel for their number.
unfoldable pub epush_loop : ℕ → ℕ → Cbuf → Bytes → Epushed
epush_loop zero start cbuf text = record {
  entry = some start;
  sz = cbuf.offset - start;
  cbuf = cbuf;
}
epush_loop (suc fuel) start cbuf text = elim (strnescape text) [
  | none ↦ record { entry = some start; sz = cbuf.offset - start; cbuf = cbuf }
  | some c ↦ elim (epush_chunk start cbuf c.chunk) [
    | none ↦ record { entry = none; sz = 0; cbuf = record cbuf { offset = 0 } }
    | some p ↦ epush_loop fuel p.entry p.cbuf c.rest
  ]
]

-- e4__mem_cbuf_epush
unfoldable pub cbuf_epush : Cbuf → Bytes → Epushed
cbuf_epush cbuf [] = record { entry = none; sz = 0; cbuf = cbuf }
cbuf_epush cbuf (c ∷ cs) = epush_loop (length (c ∷ cs)) cbuf.offset cbuf (c ∷ cs)

bytes_at-append :
    (buf : ℕ → ℕ) (at n k : ℕ)
    → bytes_at buf at (n + k) ≡ bytes_at buf at n ++ bytes_at buf (at + n) k
bytes_at-append buf at zero k =
    let size : 0 + k ≡ k = omega arith in
    let from : at + 0 ≡ at = omega arith in rw (size, from) refl
bytes_at-append buf at (suc n) k =
    let size : suc n + k ≡ suc (n + k) = omega arith in
    let from : at + suc n ≡ at + 1 + n = omega arith in
    rw (size, from, bytes_at-append buf (at + 1) n k) refl

-- What a chunk leaves at the end of the entry.
extended :
    (buf : ℕ → ℕ) (start n : ℕ) (chunk : Bytes)
    → bytes_at (write buf (start + n) chunk) start (n + length chunk)
      ≡ bytes_at buf start n ++ chunk
extended buf start n chunk =
    bytes_at-append (write buf (start + n) chunk) start n (length chunk)
    ∙ rw
        (
          bytes_ext (write buf (start + n) chunk) buf start n
              (λ x low high. write_outside buf (start + n) chunk x (inl (omega arith))),
          bytes_at-write buf (start + n) chunk,
        )
        refl

moved_down :
    (buf : ℕ → ℕ) (start n k at : ℕ)
    → at + k ≤ n
    → bytes_at (move_down buf start n) at k ≡ bytes_at buf (start + at) k
unfolding move_down
moved_down buf start n zero at inside = refl
moved_down buf start n (suc k) at inside =
    let test : ltb at n ≡ true = ground arith in
    let next : start + (at + 1) ≡ start + at + 1 = omega arith in
    rw (test, moved_down buf start n k (at + 1) (omega arith), next) refl

-- An entry of `n` bytes from `entry` on that a chunk is added to.
abbrev IsAdded : Pushed → Cbuf → ℕ → Bytes → Type 0
IsAdded p cbuf n entry =
    (p.entry ≤ p.cbuf.offset)
    × (p.cbuf.offset ≤ p.cbuf.sz)
    × (p.cbuf.sz ≡ cbuf.sz)
    × (bytes_at p.cbuf.buf p.entry (p.cbuf.offset - p.entry) ≡ entry)
    × (p.cbuf.offset - p.entry ≡ n)

store_chunk-IsAdded :
    (entry : ℕ) (cbuf : Cbuf) (chunk : Bytes)
    → entry ≤ cbuf.offset
    → cbuf.offset + length chunk ≤ cbuf.sz
    → IsAdded
        (store_chunk entry cbuf chunk)
        cbuf
        (cbuf.offset - entry + length chunk)
        (bytes_at cbuf.buf entry (cbuf.offset - entry) ++ chunk)
store_chunk-IsAdded entry cbuf chunk low fits =
    let n = cbuf.offset - entry in
    let at : entry + n ≡ cbuf.offset = omega arith in
    let size : n + length chunk ≡ cbuf.offset + length chunk - entry = omega arith in
    (omega arith, fits, refl, rw (at, size) at (extended cbuf.buf entry n chunk), omega arith)

-- A chunk that fits with what is there of the entry is added to it.
chunk-IsAdded :
    (start : ℕ) (cbuf : Cbuf) (chunk : Bytes)
    → start ≤ cbuf.offset
    → cbuf.offset ≤ cbuf.sz
    → cbuf.offset - start + length chunk ≤ cbuf.sz
    → (p : Pushed) × (epush_chunk start cbuf chunk ≡ some p)
      × IsAdded p cbuf
          (cbuf.offset - start + length chunk)
          (bytes_at cbuf.buf start (cbuf.offset - start) ++ chunk)
unfolding epush_chunk
chunk-IsAdded start cbuf chunk low inside fits =
    elim (Bool-cases (ltb (cbuf.sz - cbuf.offset) (length chunk))) [
      | inl over ↦
          let test : (start == 0 || ltb (cbuf.sz - (cbuf.offset - start)) (length chunk)) ≡ false =
            ground arith in
          let n = cbuf.offset - start in
          let zero_from : start + 0 ≡ start = omega arith in
          let whole : n - 0 ≡ n = omega arith in
          let same : bytes_at (move_entry start cbuf).buf 0 n ≡ bytes_at cbuf.buf start n =
            rw zero_from at (moved_down cbuf.buf start n n 0 (omega arith)) in
          (
            store_chunk 0 (move_entry start cbuf) chunk,
            rw (epush_chunk, over, test) refl,
            rw (whole, same) at
                (store_chunk-IsAdded 0 (move_entry start cbuf) chunk (omega arith) fits),
          )
      | inr room ↦ (
        store_chunk start cbuf chunk,
        rw (epush_chunk, room) refl,
        store_chunk-IsAdded start cbuf chunk low (ground arith),
      )
    ]

-- What the loop leaves: an entry inside the buffer that holds a text.
abbrev IsEntry : Epushed → ℕ → Bytes → Type 0
IsEntry r sz text =
    (e : ℕ) × (r.entry ≡ some e) × (e + r.sz ≤ sz) × (bytes_at r.cbuf.buf e r.sz ≡ text)

ended :
    (start : ℕ) (cbuf : Cbuf)
    → start ≤ cbuf.offset
    → cbuf.offset ≤ cbuf.sz
    → IsEntry
        (record { entry = some start; sz = cbuf.offset - start; cbuf = cbuf })
        cbuf.sz
        (bytes_at cbuf.buf start (cbuf.offset - start) ++ [])
ended start cbuf low inside =
    (start, refl, omega arith, sym (append-nil (bytes_at cbuf.buf start (cbuf.offset - start))))

epush_loop_step :
    (fuel start : ℕ) (cbuf : Cbuf) (text : Bytes) (c : Chunk) (p : Pushed)
    → strnescape text ≡ some c
    → epush_chunk start cbuf c.chunk ≡ some p
    → epush_loop (suc fuel) start cbuf text ≡ epush_loop fuel p.entry p.cbuf c.rest
unfolding epush_loop
epush_loop_step fuel start cbuf text c p e pushed = rw (epush_loop, e, pushed) refl

unescape_step :
    (fuel : ℕ) (text : Bytes) (c : Chunk)
    → strnescape text ≡ some c
    → unescape (suc fuel) text ≡ c.chunk ++ unescape fuel c.rest
unfolding unescape
unescape_step fuel text c e = rw (unescape, e) refl

-- A round of the loop, and the rounds after it.
chunk-IsEntry :
    (fuel start : ℕ) (cbuf : Cbuf) (text before : Bytes) (c : Chunk) (p : Pushed)
    → strnescape text ≡ some c
    → epush_chunk start cbuf c.chunk ≡ some p
    → p.cbuf.sz ≡ cbuf.sz
    → bytes_at p.cbuf.buf p.entry (p.cbuf.offset - p.entry) ≡ before ++ c.chunk
    → IsEntry
        (epush_loop fuel p.entry p.cbuf c.rest)
        p.cbuf.sz
        (bytes_at p.cbuf.buf p.entry (p.cbuf.offset - p.entry) ++ unescape fuel c.rest)
    → IsEntry (epush_loop (suc fuel) start cbuf text) cbuf.sz (before ++ unescape (suc fuel) text)
chunk-IsEntry fuel start cbuf text before c p e pushed same held ran =
    let run : epush_loop (suc fuel) start cbuf text ≡ epush_loop fuel p.entry p.cbuf c.rest =
      epush_loop_step fuel start cbuf text c p e pushed in
    let whole : unescape (suc fuel) text ≡ c.chunk ++ unescape fuel c.rest =
      unescape_step fuel text c e in
    rw (run, whole)
      (
        ran.0,
        ran.1,
        omega (arith, ran.2),
        ran.3
            ∙ ap (λ b. b ++ unescape fuel c.rest) held
            ∙ append_assoc before c.chunk (unescape fuel c.rest),
      )

loop-IsEntry :
    (fuel start : ℕ) (cbuf : Cbuf) (text : Bytes)
    → start ≤ cbuf.offset
    → cbuf.offset ≤ cbuf.sz
    → cbuf.offset - start + length (unescape fuel text) ≤ cbuf.sz
    → IsEntry
        (epush_loop fuel start cbuf text)
        cbuf.sz
        (bytes_at cbuf.buf start (cbuf.offset - start) ++ unescape fuel text)
unfolding epush_loop unescape
loop-IsEntry zero start cbuf text low inside fits = ended start cbuf low inside
loop-IsEntry (suc fuel) start cbuf text low inside fits =
    by_chunk (loop-IsEntry fuel) (strnescape text) refl
  where
    by_chunk :
        ((start' : ℕ) (cbuf' : Cbuf) (text' : Bytes)
          → start' ≤ cbuf'.offset
          → cbuf'.offset ≤ cbuf'.sz
          → cbuf'.offset - start' + length (unescape fuel text') ≤ cbuf'.sz
          → IsEntry
              (epush_loop fuel start' cbuf' text')
              cbuf'.sz
              (bytes_at cbuf'.buf start' (cbuf'.offset - start') ++ unescape fuel text'))
        → (next : Option Chunk) → strnescape text ≡ next
        → IsEntry
            (epush_loop (suc fuel) start cbuf text)
            cbuf.sz
            (bytes_at cbuf.buf start (cbuf.offset - start) ++ unescape (suc fuel) text)
    by_chunk later none e = rw (epush_loop, unescape, e) (ended start cbuf low inside)
    by_chunk later (some c) e =
        let rest = unescape fuel c.rest in
        let whole = unescape_step fuel text c e in
        let fits' : cbuf.offset - start + length (c.chunk ++ rest) ≤ cbuf.sz = rw whole at fits in
        let size : length (c.chunk ++ rest) ≡ length c.chunk + length rest =
          length-append c.chunk rest in
        let added = chunk-IsAdded start cbuf c.chunk low inside (omega arith) in
        let bound = added.2.0 in
        let bound' = added.2.1 in
        let same = added.2.2 in
        let n = added.2.4 in
        let ran = later added.0.entry added.0.cbuf c.rest bound bound' (omega arith) in
        chunk-IsEntry fuel start cbuf text (bytes_at cbuf.buf start (cbuf.offset - start)) c added.0
          e added.1 same added.2.3 ran

-- In a buffer whose offset is inside it or at its end, a text that is not empty and whose decoding
-- is not larger than the buffer is accepted: the entry lies in the buffer and holds the decoding.
pub cbuf_epush_lem :
    (cbuf : Cbuf) (text : Bytes)
    → IsOffset cbuf
    → length text ≢ 0
    → length (unescape (length text) text) ≤ cbuf.sz
    → let u = unescape (length text) text in
      let r = cbuf_epush cbuf text in
      (entry : ℕ) × (r.entry ≡ some entry)
      × (entry + r.sz ≤ cbuf.sz)
      × (bytes_at r.cbuf.buf entry r.sz ≡ u)
unfolding cbuf_epush
cbuf_epush_lem cbuf [] ok nonempty fits = absurd (nonempty refl)
cbuf_epush_lem cbuf (c ∷ cs) ok nonempty fits =
    let nothing : cbuf.offset - cbuf.offset ≡ 0 = omega arith in
    rw nothing at
      (loop-IsEntry (length (c ∷ cs)) cbuf.offset cbuf (c ∷ cs) (omega arith) ok (omega arith))

-- ===== src/Compile/Copied.antt =====
-- The loop of e4__compile_estr of core/src/kernel/compile.c, which decodes a text in memory chunk by
-- chunk and copies what it decodes; the text may lie where it copies to.
use e.Base.{
  ℕ, zero, suc, ◌+◌, ◌-◌, ◌≤◌, ◌≡◌, refl, arith, ap, sym, ◌∙◌, Bytes, [], ◌∷◌, ◌++◌, length, Option,
  none, some, ◌⊎◌, inl, inr, length-append,
}
use e.Task.{Memory}
use e.Task.ByteAccess.{
  IsText, load_text, store_text, load_text-store_outside, load_text-store_text, load_text-IsText,
  length-load_text,
}
use e.Mem.Escape.{Chunk, strnescape, unescape}
use e.Mem.Escape.Chunks.{IsTaken, strnescape-IsTaken}

-- Memory, and the address behind what is copied.
pub record Copied : Type 0 where
  pub mem : Memory
  pub buffer : ℕ

-- The loop over the chunks of the `len` bytes at `str`, with fuel for their number: e4__mem_strnescape
-- moves `str` to the rest of the text, and the chunk is copied to `buffer`.
unfoldable pub copy_loop : ℕ → Memory → ℕ → ℕ → ℕ → Copied
copy_loop zero m str len buffer = record { mem = m; buffer = buffer }
copy_loop (suc fuel) m str len buffer = elim (strnescape (load_text m str len)) [
  | none ↦ record { mem = m; buffer = buffer }
  | some c ↦
      copy_loop fuel (store_text m buffer c.chunk) (str + (len - length c.rest)) (length c.rest)
        (buffer + length c.chunk)
]

load_text-append :
    (m : Memory) (a k n : ℕ) → load_text m a (k + n) ≡ load_text m a k ++ load_text m (a + k) n
unfolding load_text
load_text-append m a zero n =
    let same : a + 0 ≡ a = omega arith in
    let same' : 0 + n ≡ n = omega arith in rw (same, same') refl
load_text-append m a (suc k) n =
    let next : suc k + n ≡ suc (k + n) = omega arith in
    let on : a + suc k ≡ a + 1 + k = omega arith in
    rw (next, on, load_text-append m (a + 1) k n) refl

abbrev behind_first : Bytes → Bytes
behind_first [] = []
behind_first (_ ∷ cs) = cs

-- The end of a text in memory.
load_text_rest :
    (pre rest : Bytes) (m : Memory) (a : ℕ)
    → pre ++ rest ≡ load_text m a (length (pre ++ rest))
    → load_text m (a + length pre) (length rest) ≡ rest
unfolding load_text
load_text_rest [] rest m a e = let same : a + 0 ≡ a = omega arith in rw same (sym e)
load_text_rest (c ∷ pre) rest m a e =
    let on : a + suc (length pre) ≡ a + 1 + length pre = omega arith in
    rw on (load_text_rest pre rest m (a + 1) (ap behind_first e))

-- What the loop leaves: the decoded text at `buffer`, and the memory below it.
pub record IsCopied (m : Memory) (buffer : ℕ) (text : Bytes) (r : Copied) : Type 0 where
  pub ends : r.buffer ≡ buffer + length text
  pub copied : load_text r.mem buffer (length text) ≡ text
  pub kept : (a n : ℕ) → a + n ≤ buffer → load_text r.mem a n ≡ load_text m a n

nothing : (m : Memory) (buffer : ℕ) → IsCopied m buffer [] (record { mem = m; buffer = buffer })
unfolding load_text
nothing m buffer = record { ends = omega arith; copied = refl; kept = λ a n below. refl }

-- A chunk is copied, and then the rest behind it.
joined :
    (m : Memory) (buffer : ℕ) (chunk text : Bytes) (r : Copied)
    → IsText chunk
    → IsCopied (store_text m buffer chunk) (buffer + length chunk) text r
    → IsCopied m buffer (chunk ++ text) r
joined m buffer chunk text r bytes rest = record {
  ends = rw (length-append chunk text) (omega (arith, rest.ends));
  copied = rw (length-append chunk text) (
      load_text-append r.mem buffer (length chunk) (length text)
      ∙ rw
          (
            rest.kept buffer (length chunk) (omega arith),
            load_text-store_text m buffer chunk bytes,
            rest.copied,
          )
          refl);
  kept = λ a n below.
      rest.kept a n (omega (arith, below))
      ∙ load_text-store_outside m buffer chunk a n bytes (inl below);
}

-- The rest of a text is untouched by a chunk that is copied before it or behind its end.
rest_kept :
    (m : Memory) (str len buffer : ℕ) (c : Chunk)
    → IsTaken (load_text m str len) c
    → (buffer ≤ str) ⊎ (str + len ≤ buffer)
    → ((buffer + length c.chunk ≤ str + (len - length c.rest))
        ⊎ (str + (len - length c.rest) + length c.rest ≤ buffer + length c.chunk))
      × (load_text (store_text m buffer c.chunk) (str + (len - length c.rest)) (length c.rest)
          ≡ c.rest)
rest_kept m str len buffer c taken apart =
    let pre = taken.0 in
    let total : length (pre ++ c.rest) ≡ len = ap length taken.1 ∙ length-load_text m str len in
    let sum : length pre + length c.rest ≡ len = sym (length-append pre c.rest) ∙ total in
    let at : str + (len - length c.rest) ≡ str + length pre = omega (arith, sum) in
    let whole : pre ++ c.rest ≡ load_text m str (length (pre ++ c.rest)) =
      taken.1 ∙ ap (load_text m str) (sym total) in
    rw at (
      side (length pre) sum taken.2 apart,
      load_text-store_outside m buffer c.chunk (str + length pre) (length c.rest) taken.3
            (outside (length pre) sum taken.2 apart)
          ∙ load_text_rest pre c.rest m str whole,
    )
  where
    side :
        (k : ℕ)
        → k + length c.rest ≡ len
        → length c.chunk ≤ k
        → (buffer ≤ str) ⊎ (str + len ≤ buffer)
        → (buffer + length c.chunk ≤ str + k) ⊎ (str + k + length c.rest ≤ buffer + length c.chunk)
    side k sum le (inl behind) = inl (omega arith)
    side k sum le (inr before) = inr (omega arith)

    outside :
        (k : ℕ)
        → k + length c.rest ≡ len
        → length c.chunk ≤ k
        → (buffer ≤ str) ⊎ (str + len ≤ buffer)
        → (str + k + length c.rest ≤ buffer) ⊎ (buffer + length c.chunk ≤ str + k)
    outside k sum le (inl behind) = inr (omega arith)
    outside k sum le (inr before) = inl (omega arith)

-- Where the text does not start before the place that is copied to, or ends before it, the loop
-- copies the text as it is decoded from the memory at the start.
pub copy_loop_lem :
    (fuel : ℕ) (m : Memory) (str len buffer : ℕ)
    → (buffer ≤ str) ⊎ (str + len ≤ buffer)
    → IsCopied m buffer (unescape fuel (load_text m str len)) (copy_loop fuel m str len buffer)
unfolding copy_loop unescape
copy_loop_lem zero m str len buffer apart = nothing m buffer
copy_loop_lem (suc fuel) m str len buffer apart =
    for (λ m' str' len' buffer' apart'. copy_loop_lem fuel m' str' len' buffer' apart')
      (strnescape (load_text m str len)) refl
  where
    for :
        ((m' : Memory) (str' len' buffer' : ℕ)
          → (buffer' ≤ str') ⊎ (str' + len' ≤ buffer')
          → IsCopied m' buffer'
              (unescape fuel (load_text m' str' len'))
              (copy_loop fuel m' str' len' buffer'))
        → (o : Option Chunk) → strnescape (load_text m str len) ≡ o
        → IsCopied m buffer
            (unescape (suc fuel) (load_text m str len))
            (copy_loop (suc fuel) m str len buffer)
    for onward none e = rw (copy_loop, unescape, e) (nothing m buffer)
    for onward (some c) e =
        let taken = strnescape-IsTaken (load_text m str len) c (load_text-IsText m str len) e in
        let rest = rest_kept m str len buffer c taken apart in
        let ih =
          onward (store_text m buffer c.chunk) (str + (len - length c.rest)) (length c.rest)
            (buffer + length c.chunk) rest.0 in
        rw (copy_loop, unescape, e)
          (joined m buffer c.chunk (unescape fuel c.rest) _ taken.3 (rw rest.1 at ih))

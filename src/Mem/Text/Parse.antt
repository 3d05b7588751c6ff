-- ===== src/Mem/Text/Parse.antt =====
-- Where e4__mem_parse stops.
use e.Base.{
  ℕ, suc, ◌≡◌, refl, arith, ap, ◌==◌, ◌||◌, Bytes, [], ◌∷◌, ◌++◌, length, Bool, true, false, inl,
  inr, ◌⊎◌, All, get_or,
}
use e.Usize.{has_flag}
use e.Mem.Text.{f_skip_leading, f_ignore_esc, skip_delim, parse_length, mem_parse}

-- Whether a byte ends the text, and texts that no delimiter stands in front of.
abbrev pub stops : ℕ → ℕ → Bool
stops delim c = c == delim || c == 10

abbrev pub NoDelim : ℕ → Bytes → Type 0
NoDelim delim s = All (λ c. stops delim c ≡ false) s

-- Without escapes, a text in which neither the delimiter nor the end of a line stands, followed by
-- one of them or by the end of the buffer, is parsed whole and no further.
pub parse_length-append :
    (delim : ℕ) (text rest : Bytes)
    → NoDelim delim text
    → (rest ≡ []) ⊎ (stops delim (get_or rest 0 delim) ≡ true)
    → parse_length delim false false (text ++ rest) ≡ length text
unfolding parse_length
parse_length-append delim [] [] clean end = refl
parse_length-append delim [] (c ∷ rest) clean (inl e) =
    let bad : suc (length rest) ≡ 0 = ap length e in absurd (omega arith)
parse_length-append delim [] (c ∷ rest) clean (inr stop) = rw stop refl
parse_length-append delim (c ∷ text) rest clean end =
    rw clean.0 (ap suc (parse_length-append delim text rest clean.1 end))

skip_delim-append :
    (delim : ℕ) (lead text : Bytes)
    → All (λ c. c ≡ delim) lead
    → skip_delim delim text ≡ text
    → skip_delim delim (lead ++ text) ≡ text
unfolding skip_delim
skip_delim-append delim [] text same kept = kept
skip_delim-append delim (c ∷ lead) text same kept =
    let equal : (c == delim) ≡ true = ground (arith, same.0) in
    rw equal (skip_delim-append delim lead text same.1 kept)

-- With the flag that skips leading delimiters and without the one for escapes, a word that is
-- not empty, between delimiters and a delimiter, the end of a line or the end of the buffer, is
-- found: the text starts at the word and has its length.
pub mem_parse_lem :
    (delim flags c : ℕ) (lead word rest : Bytes)
    → has_flag flags f_skip_leading ≡ true
    → has_flag flags f_ignore_esc ≡ false
    → All (λ b. b ≡ delim) lead
    → NoDelim delim (c ∷ word)
    → (rest ≡ []) ⊎ (stops delim (get_or rest 0 delim) ≡ true)
    → mem_parse (lead ++ ((c ∷ word) ++ rest)) delim flags
      ≡ record { out = (c ∷ word) ++ rest; length = length (c ∷ word) }
unfolding mem_parse
mem_parse_lem delim flags c lead word rest skips plain same clean end =
    let found : skip_delim delim (lead ++ (c ∷ (word ++ rest))) ≡ c ∷ (word ++ rest) =
      skip_delim-append delim lead (c ∷ (word ++ rest)) same starts in
    let size : parse_length delim false false (c ∷ (word ++ rest)) ≡ suc (length word) =
      parse_length-append delim (c ∷ word) rest clean end in
    rw (skips, plain, found, size) refl
  where
    starts : skip_delim delim (c ∷ (word ++ rest)) ≡ c ∷ (word ++ rest)
    starts =
        unfold skip_delim in
        (let other : (c == delim) ≡ false = ground (arith, clean.0) in rw other refl)

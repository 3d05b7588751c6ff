-- ===== src/Mem/Escape/RoundTrip.antt =====
-- Decoding undoes the escaping of backslashes.
use e.Base.{
  ℕ, zero, suc, ◌≤◌, ◌≡◌, refl, arith, ap, ◌∙◌, ◌==◌, if◌then◌else◌, Bytes, [], ◌∷◌, ◌++◌, length,
  some, Bool-cases, inl, inr, false,
}
use e.Mem.Escape.{run, strnescape, escape, single_escape, unescape}

-- A text with its backslashes escaped.
abbrev pub escaped : Bytes → Bytes
escaped [] = []
escaped (c ∷ cs) = if c == 92 then 92 ∷ 92 ∷ escaped cs else c ∷ escaped cs

pub run_parts :
    (text : Bytes)
    → ((run text).chunk ++ (run text).rest ≡ text) × (length (run text).rest ≤ length text)
unfolding run
run_parts [] = (refl, omega arith)
run_parts (c ∷ cs) =
    let ih = run_parts cs in
    elim (Bool-cases (c == 92)) [
      | inl slash ↦ rw slash (refl, omega arith)
      | inr other ↦ rw other (ap (λ t. c ∷ t) ih.0, omega (arith, ih.1))
    ]

run-escaped :
    (text : Bytes)
    → run (escaped text) ≡ record { chunk = (run text).chunk; rest = escaped (run text).rest }
unfolding run
run-escaped [] = refl
run-escaped (c ∷ cs) = elim (Bool-cases (c == 92)) [
  | inl slash ↦ rw slash (rw slash refl)
  | inr other ↦ rw (other, run-escaped cs) (rw other refl)
]

run-escaped_other :
    (c : ℕ) (cs : Bytes)
    → (c == 92) ≡ false
    → run (c ∷ escaped cs) ≡ record { chunk = c ∷ (run cs).chunk; rest = escaped (run cs).rest }
unfolding run
run-escaped_other c cs other = rw (other, run-escaped cs) refl

unescape-run :
    (fuel c : ℕ) (cs : Bytes)
    → (c == 92) ≡ false
    → unescape (suc fuel) (c ∷ cs) ≡ (run (c ∷ cs)).chunk ++ unescape fuel (run (c ∷ cs)).rest
unfolding unescape strnescape
unescape-run fuel c cs other =
    let chunk : strnescape (c ∷ cs) ≡ some (run (c ∷ cs)) = rw (strnescape, other) refl in
    rw (unescape, chunk) refl

-- Whatever bytes a text has, decoding the text with its backslashes escaped gives it back, in as
-- many rounds as it has bytes.
pub unescape-escaped :
    (text : Bytes) (fuel : ℕ) → length text ≤ fuel → unescape fuel (escaped text) ≡ text
unfolding unescape strnescape escape single_escape
unescape-escaped [] zero enough = refl
unescape-escaped [] (suc fuel) enough = refl
unescape-escaped (c ∷ cs) zero enough = absurd (omega arith)
unescape-escaped (c ∷ cs) (suc fuel) enough = elim (Bool-cases (c == 92)) [
  | inl slash ↦
      let here : 92 ≡ c = ground arith in
      rw slash (ap (λ t. 92 ∷ t) (unescape-escaped cs fuel (omega arith)) ∙ ap (λ b. b ∷ cs) here)
  | inr other ↦
      let parts = run_parts cs in
      rw other (
        unescape-run fuel c (escaped cs) other
        ∙ rw (run-escaped_other c cs other) (
            ap (λ t. (c ∷ (run cs).chunk) ++ t)
              (unescape-escaped (run cs).rest fuel (omega (arith, parts.1)))
            ∙ ap (λ t. c ∷ t) parts.0))
]

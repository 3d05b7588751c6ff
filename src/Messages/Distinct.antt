-- ===== src/Messages/Distinct.antt =====
-- No two errors have the same message.
use e.Base.{
  ℕ, ◌≡◌, ◌≢◌, refl, arith, ap, sym, ◌∙◌, ◌==◌, ==_iff, ◌&&◌, not, Bool, true, false, if◌then◌else◌,
  Bytes, List, [], ◌∷◌, Bool-cases, inl, inr,
}
use e.Mem.Text.Compare.{texts_equal}
use e.Messages.{Message, messages, unknown, text_of, format_exception}

texts_equal_refl : (t : Bytes) → texts_equal t t ≡ true
texts_equal_refl [] = refl
texts_equal_refl (c ∷ t) = let same : (c == c) ≡ true = ground arith in rw same (texts_equal_refl t)

-- A text that no case gives, nor the default.
abbrev is_fresh : Bytes → List Message → Bool
is_fresh t [] = not (texts_equal unknown t)
is_fresh t (m ∷ ms) = not (texts_equal m.text t) && is_fresh t ms

abbrev all_distinct : List Message → Bool
all_distinct [] = true
all_distinct (m ∷ ms) = is_fresh m.text ms && all_distinct ms

-- Whether a word is the code of one of the cases.
abbrev pub is_case : List Message → ℕ → Bool
is_case [] e = false
is_case (m ∷ ms) e = if e == m.code then true else is_case ms e

equal_texts : (s t : Bytes) → not (texts_equal s t) ≡ true → s ≢ t
equal_texts s t differ same =
    let equal : texts_equal s t ≡ true = ap (texts_equal s) (sym same) ∙ texts_equal_refl s in
    let wrong : not true ≡ true = rw equal at differ in cc

both_true : (a b : Bool) → (a && b) ≡ true → (a ≡ true) × (b ≡ true)
both_true a b h = ground arith

text_of_other : (ms : List Message) (t : Bytes) (e : ℕ) → is_fresh t ms ≡ true → text_of ms e ≢ t
unfolding text_of
text_of_other [] t e fresh same = equal_texts unknown t fresh same
text_of_other (m ∷ ms) t e fresh same =
    let parts = both_true (not (texts_equal m.text t)) (is_fresh t ms) fresh in
    elim (Bool-cases (e == m.code)) [
      | inl hit ↦ equal_texts m.text t parts.0 (rw hit at same)
      | inr miss ↦ text_of_other ms t e parts.1 (rw miss at same)
    ]

text_of_injective :
    (ms : List Message) (e e' : ℕ)
    → all_distinct ms ≡ true
    → is_case ms e ≡ true
    → text_of ms e ≡ text_of ms e'
    → e ≡ e'
unfolding text_of
text_of_injective [] e e' distinct known same = cc
text_of_injective (m ∷ ms) e e' distinct known same =
    let parts = both_true (is_fresh m.text ms) (all_distinct ms) distinct in
    elim (Bool-cases (e == m.code)) [
      | inl hit ↦ elim (Bool-cases (e' == m.code)) [
        | inl hit' ↦ (==_iff e m.code).0 hit ∙ sym ((==_iff e' m.code).0 hit')
        | inr miss' ↦ absurd (text_of_other ms m.text e' parts.0 (sym (rw (hit, miss') at same)))
      ]
      | inr miss ↦ elim (Bool-cases (e' == m.code)) [
        | inl hit' ↦ absurd (text_of_other ms m.text e parts.0 (rw (miss, hit') at same))
        | inr miss' ↦
            text_of_injective ms e e' parts.1 (rw miss at known) (rw (miss, miss') at same)
      ]
    ]

messages_distinct : all_distinct messages ≡ true
unfolding messages
messages_distinct = refl

-- A word that is the code of an error has a message that no other word has, not even an unknown
-- one.
pub format_exception_injective :
    (e e' : ℕ) → is_case messages e ≡ true → format_exception e ≡ format_exception e' → e ≡ e'
unfolding format_exception
format_exception_injective e e' known same =
    text_of_injective messages e e' messages_distinct known same

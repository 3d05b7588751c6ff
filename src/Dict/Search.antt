-- ===== src/Dict/Search.antt =====
-- Looking up and suggesting words as searches that pay no heed to case.
use e.Base.{
  ◌≡◌, refl, arith, Bool, false, ◌&&◌, leb, ◌==◌, if◌then◌else◌, Bytes, length, take, List, [], ◌∷◌,
  All, Bool-cases, inl, inr,
}
use e.Mem.Number.{tolower}
use e.Mem.Text.{strncasecmp}
use e.Mem.Text.Compare.{is_zero, IsChar, folded, texts_equal, strncasecmp_lem, strncasecmp-take}
use e.Dict.Entry.{Header}
use e.Dict.{mem_dict_lookup, mem_dict_suggest}

-- The dictionary from the first entry that passes a test on.
abbrev pub find_from : (Header → Bool) → List Header → List Header
find_from test [] = []
find_from test (h ∷ dict) =
    let further = find_from test dict in if test h then h ∷ dict else further

abbrev pub same_name : Bytes → Header → Bool
same_name name h = texts_equal (folded h.name) (folded name)

-- A name that starts with a prefix.
abbrev pub starts_with : Bytes → Header → Bool
starts_with prefix h =
    leb (length prefix) (length h.name)
    && texts_equal (folded (take (length prefix) h.name)) (folded prefix)

abbrev pub HasName : Header → Type 0
HasName h = All IsChar h.name

texts_equal-length :
    (a b : Bytes) → (length b == length a) ≡ false → texts_equal (folded a) (folded b) ≡ false
texts_equal-length [] [] other = absurd (ground arith)
texts_equal-length [] (_ ∷ _) other = refl
texts_equal-length (_ ∷ _) [] other = refl
texts_equal-length (x ∷ a) (y ∷ b) other =
    let ih = texts_equal-length a b (ground arith) in
    elim (Bool-cases (tolower x == tolower y)) [ inl e ↦ rw e ih | inr e ↦ rw e refl ]

name_test :
    (h : Header) (name : Bytes)
    → HasName h
    → All IsChar name
    → (length name == length h.name && is_zero (strncasecmp h.name name (length name)))
      ≡ same_name name h
name_test h name chars chars' = elim (Bool-cases (length name == length h.name)) [
  | inl same ↦
      let equal : length h.name ≡ length name = ground arith in
      rw same (rw equal at (strncasecmp_lem h.name name chars chars' equal))
  | inr other ↦ rw (other, texts_equal-length h.name name other) refl
]

-- For names without zero bytes, the lookup returns the newest entry that has the name but for case,
-- and NULL where there is none.
pub mem_dict_lookup_lem :
    (dict : List Header) (name : Bytes)
    → All HasName dict
    → All IsChar name
    → mem_dict_lookup dict name ≡ find_from (same_name name) dict
unfolding mem_dict_lookup
mem_dict_lookup_lem [] name named chars = refl
mem_dict_lookup_lem (h ∷ dict) name named chars =
    rw (name_test h name named.0 chars, mem_dict_lookup_lem dict name named.1 chars) refl

prefix_test :
    (h : Header) (prefix : Bytes)
    → HasName h
    → All IsChar prefix
    → (leb (length prefix) (length h.name) && is_zero (strncasecmp h.name prefix (length prefix)))
      ≡ starts_with prefix h
prefix_test h prefix chars chars' = elim (Bool-cases (leb (length prefix) (length h.name))) [
  | inl short ↦ rw short (strncasecmp-take h.name prefix chars chars' (ground arith))
  | inr long ↦ rw long refl
]

-- For names without zero bytes, the suggestion is the newest entry whose name starts with the
-- prefix but for case, and NULL where there is none.
pub mem_dict_suggest_lem :
    (dict : List Header) (prefix : Bytes)
    → All HasName dict
    → All IsChar prefix
    → mem_dict_suggest dict prefix ≡ find_from (starts_with prefix) dict
unfolding mem_dict_suggest
mem_dict_suggest_lem [] prefix named chars = refl
mem_dict_suggest_lem (h ∷ dict) prefix named chars =
    rw (prefix_test h prefix named.0 chars, mem_dict_suggest_lem dict prefix named.1 chars) refl

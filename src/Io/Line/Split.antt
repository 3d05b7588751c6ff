-- ===== src/Io/Line/Split.antt =====
-- The lines of a text: what e4__io_file_readline should read.
use e.Base.{
  ℕ, zero, suc, ◌-◌, ◌<◌, ◌≤◌, ◌≡◌, refl, arith, Bool, true, false, ltb, ◌==◌, if◌then◌else◌, Bytes,
  [], ◌∷◌, ◌++◌, length, take, append_assoc, append-nil, length-append, Bool-cases, inl, inr,
}
use e.Errors.{e_ok, e_eof}

-- The bytes up to the end of the line and with it, the bytes after them, and whether the line ends.
unfoldable pub line_of : Bytes → Bytes
line_of [] = []
line_of (c ∷ cs) = if c == 10 then c ∷ [] else c ∷ line_of cs

unfoldable pub after_line : Bytes → Bytes
after_line [] = []
after_line (c ∷ cs) = if c == 10 then cs else after_line cs

unfoldable pub ends_line : Bytes → Bool
ends_line [] = false
ends_line (c ∷ cs) = if c == 10 then true else ends_line cs

pub take-nil : (k : ℕ) → take {A = ℕ} k [] ≡ []
take-nil zero = refl
take-nil (suc k) = refl

-- Storing one byte and then others, where there is room for `n`.
pub take_more :
    (n : ℕ) (text line : Bytes) (c : ℕ)
    → (text ++ take (n - length text) (c ∷ []))
        ++ take (n - length (text ++ take (n - length text) (c ∷ []))) line
      ≡ text ++ take (n - length text) (c ∷ line)
take_more n text line c = elim (Bool-cases (ltb (length text) n)) [
  | inl room ↦
      let left : n - length text ≡ suc (n - length text - 1) = ground arith in
      let left' : n - length (text ++ c ∷ []) ≡ n - length text - 1 =
        omega (arith, length-append {0} text (c ∷ [])) in
      rw (left, take-nil (n - length text - 1), left') (append_assoc text (c ∷ []) _)
  | inr no_room ↦
      let left : n - length text ≡ 0 = ground arith in
      rw (left, append-nil text, left) (append-nil text)
]

pub stored_room :
    (n : ℕ) (text : Bytes) (c : ℕ)
    → length text ≤ n
    → length (text ++ take (n - length text) (c ∷ [])) ≤ n
stored_room n text c room = elim (Bool-cases (ltb (length text) n)) [
  | inl more ↦
      let left : n - length text ≡ suc (n - length text - 1) = ground arith in
      let less : length text < n = ground arith in
      rw (left, take-nil (n - length text - 1)) (omega (arith, length-append {0} text (c ∷ [])))
  | inr no_room ↦ let left : n - length text ≡ 0 = ground arith in rw (left, append-nil text) room
]

-- What a read of a line returns: the end of the file only where nothing is stored before it.
abbrev pub line_res : Bytes → Bytes → ℕ
line_res bytes text = if ends_line bytes then e_ok else if ltb 0 (length text) then e_ok else e_eof

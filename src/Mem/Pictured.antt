-- ===== src/Mem/Pictured.antt =====
-- Pictured numeric output of core/src/util/mem.c: e4__mem_pno_digit, _digits, _hold and _holds. The
-- text is written from its end; what is written so far is a list, whose first byte is the last
-- that was written. `none` is a division that goes on.
pub mod Numerals
pub mod Digits
pub mod Texts
use e.Base.{
  ℕ, zero, suc, ◌+◌, ◌-◌, ◌%◌, Bool, true, false, ◌&&◌, not, ltb, ◌==◌, if◌then◌else◌, Bytes, List,
  [], ◌∷◌, ◌++◌, Option, none, some,
}
use e.Errors.{Result, ok, err, e_ok, e_pnooverflow}
use e.Usize.{Double, has_flag, f_signed, is_negative}
use e.Double.{double_negate}
use e.Double.Divide.{div}
use e.Mem.Number.{clamp_base}

-- What is written, the double word that is left, and the error that is returned.
pub record Pictured : Type 0 where
  pub text : Bytes
  pub ud : Double
  pub res : ℕ

-- The character of a digit below 36.
unfoldable pub pno_byte : ℕ → ℕ
pno_byte digit = if ltb digit 10 then (48 + digit) % 256 else (65 + digit - 10) % 256

-- e4__mem_pno_hold
unfoldable pub pno_hold : Bytes → ℕ → Bytes
pno_hold text c = c ∷ text

-- e4__mem_pno_holds
unfoldable pub pno_holds : Bytes → Bytes → Bytes
pno_holds text s = s ++ text

-- e4__mem_pno_digit
unfoldable pub pno_digit : Bytes → ℕ → Double → Option Pictured
pno_digit text base ud = elim (div ud (clamp_base base) 0) [
  | none ↦ none
  | some (err e) ↦ some (record { text = text; ud = ud; res = e })
  | some (ok d) ↦ some (record { text = pno_byte d.r ∷ text; ud = d.q; res = e_ok })
]

-- The state after the loop of e4__mem_pno_digits: also how much room is left.
pub record PicturedLoop : Type 0 where
  pub pictured : Pictured
  pub len : ℕ

-- The loop of e4__mem_pno_digits.
unfoldable pub pno_loop : ℕ → Bytes → ℕ → Double → Option PicturedLoop
pno_loop zero text base ud =
    some (record { pictured = record { text = text; ud = ud; res = e_pnooverflow }; len = 0 })
pno_loop (suc len) text base ud = elim (pno_digit text base ud) [
  | none ↦ none
  | some p ↦ elim (p.res == e_ok) [
    | false ↦ some (record { pictured = p; len = suc len })
    | true ↦ elim (p.ud.high == 0 && p.ud.low == 0) [
      | true ↦ some (record { pictured = p; len = len })
      | false ↦ pno_loop len p.text base p.ud
    ]
  ]
]

-- The sign that e4__mem_pno_digits writes in front.
unfoldable pub pno_sign : Bool → PicturedLoop → Pictured
pno_sign negative s =
    if negative
    then (if s.len == 0
        then record s.pictured { res = e_pnooverflow }
        else record s.pictured { text = pno_hold s.pictured.text 45 })
    else s.pictured

-- e4__mem_pno_digits
unfoldable pub pno_digits : Bytes → ℕ → ℕ → ℕ → Double → Option Pictured
pno_digits text len base flags ud =
    let negative = has_flag flags f_signed && is_negative ud.high in
    let ud' = if negative then double_negate ud else ud in
    elim (pno_loop len text base ud') [ none ↦ none | some s ↦ some (pno_sign negative s) ]

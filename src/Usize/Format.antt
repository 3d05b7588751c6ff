-- ===== src/Usize/Format.antt =====
-- e4__usize_digit and e4__usize_format of core/src/util/usize.c. What is written is the list of
-- the bytes from the pointer that is returned to the end of the buffer.
use e.Base.{ℕ, zero, suc, ◌+◌, ◌-◌, ◌/◌, ◌%◌, ◌&&◌, ◌||◌, ltb, ◌==◌, if◌then◌else◌, Bytes, [], ◌∷◌}
use e.Usize.{has_flag, f_signed, is_negative, negate}

-- A digit as a character; `char` is signed, so a digit of 128 or more counts as below ten.
unfoldable pub digit_byte : ℕ → ℕ
digit_byte digit =
    if ltb digit 10 || ltb 127 digit then (48 + digit) % 256 else (65 + digit - 10) % 256

-- What e4__usize_digit writes through `d` and what it returns.
pub record Digit : Type 0 where
  pub d : ℕ
  pub rest : ℕ

-- e4__usize_digit
unfoldable pub usize_digit : ℕ → ℕ → Digit
usize_digit u base = record { d = digit_byte (u % base); rest = u / base }

-- The loop of e4__usize_format, with the room left in front of what is written.
unfoldable pub format_loop : ℕ → ℕ → ℕ → Bytes → Bytes
format_loop zero base n written = written
format_loop (suc room) base n written =
    let res = usize_digit n base in
    let longer = format_loop room base res.rest (res.d ∷ written) in
    if res.rest == 0 then res.d ∷ written else longer

-- e4__usize_format, for a buffer that has room for a sign; 45 is '-'.
unfoldable pub format : ℕ → ℕ → ℕ → ℕ → Bytes
format n base flags sz =
    let negative = has_flag flags f_signed && is_negative n in
    let n' = if negative then negate n else n in
    let written = format_loop (sz - (if negative then 1 else 0)) base n' [] in
    if negative then 45 ∷ written else written

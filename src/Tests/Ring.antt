-- ===== src/Tests/Ring.antt =====
-- Runs of the circular buffer, of 8 bytes.
use e.Base.{ℕ, ◌+◌, ◌≤◌, ◌≡◌, refl, arith, some, none, Option, Bytes, [], ◌∷◌, length}
use e.Mem.Escape.{unescape, strnescape, run, escape, single_escape}
use e.Mem.Ring.Escaped.{cbuf_epush, cbuf_epush_lem}
use e.Mem.Ring.{Cbuf, Pushed, cbuf_init, cbuf_push, write, bytes_at, IsOffset, cbuf_push_kept}

abbrev two_left : Cbuf
two_left = record { sz = 8; offset = 6; buf = λ x. x }

abbrev three : Bytes
three = 65 ∷ 66 ∷ 67 ∷ []

two_left-IsOffset : IsOffset two_left
two_left-IsOffset = omega arith

cbuf_push_kept_example :
    (pushed pushed' : Pushed) × (cbuf_push two_left three ≡ some pushed)
    × (cbuf_push pushed.cbuf three ≡ some pushed')
    × (bytes_at pushed'.cbuf.buf pushed.entry (length three) ≡ three)
cbuf_push_kept_example =
    cbuf_push_kept two_left three three two_left-IsOffset (omega arith) (omega arith) (omega arith)

-- Two entries of 4 bytes in a buffer of 8, after one of 2: the second overwrites half of the first.
abbrev four : Bytes
four = 65 ∷ 66 ∷ 67 ∷ 68 ∷ []

abbrev after : Option Pushed → Bytes → Option Pushed
after none text = none
after (some p) text = cbuf_push p.cbuf text

abbrev read : Option Pushed → ℕ → ℕ → Bytes
read none at n = []
read (some p) at n = bytes_at p.cbuf.buf at n

smashed :
    read (after (after (cbuf_push (cbuf_init (λ x. 0) 8) (49 ∷ 50 ∷ [])) four) four) 2 4
    ≡ 67 ∷ 68 ∷ 67 ∷ 68 ∷ []
unfolding cbuf_push cbuf_init write
smashed = refl

-- "A\n" with the escape written out, at the end of the buffer: it does not fit and is moved.
abbrev escaped_text : Bytes
escaped_text = 65 ∷ 66 ∷ 92 ∷ 110 ∷ []

short : length (unescape 4 escaped_text) ≤ 8
unfolding unescape strnescape run escape single_escape
short = omega arith

cbuf_epush_example :
    (entry : ℕ) × ((cbuf_epush two_left escaped_text).entry ≡ some entry)
    × (entry + (cbuf_epush two_left escaped_text).sz ≤ 8)
    × (bytes_at
          (cbuf_epush two_left escaped_text).cbuf.buf
          entry
          (cbuf_epush two_left escaped_text).sz
        ≡ unescape 4 escaped_text)
cbuf_epush_example = cbuf_epush_lem two_left escaped_text two_left-IsOffset (omega arith) short

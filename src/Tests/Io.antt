-- ===== src/Tests/Io.antt =====
-- Input and output on a file of a few bytes, and on the sample task.
use e.Base.{
  ℕ, ◌+◌, ◌-◌, ◌<◌, ◌≤◌, ◌≡◌, refl, arith, none, some, Bytes, List, [], ◌∷◌, length, map, All, take,
  ◌^◌,
}
use e.Mem.Number.Loop.{horner}
use e.Mem.Pictured.Numerals.{numeral}
use e.Errors.{e_ok, e_eof}
use e.Usize.{Double}
use e.Task.{Task}
use e.Task.ByteAccess.{load_text}
use e.Mem.Text.{f_skip_leading}
use e.Io.{Answer, IoFunc}
use e.Io.Line.{LineResult, io_file_readline}
use e.Io.Line.Split.{line_of, after_line, ends_line, line_res}
use e.Io.Line.Reads.{Reads, io_file_readline_lem}
use e.Io.Source.{Refilled, io_refill, io_parse, set_in, bf_true}
use e.Io.Source.Words.{io_parse_bounds}
use e.Io.Source.Refill.{io_refill_file}
use e.Io.Pno.{io_pno_start, io_pno_finish, io_pno_digits, Picture, PnoDigits}
use e.Io.Pno.Holds.{holds_each, picture_of, total, io_pno_finish_lem}
use e.Io.Pno.Digits.{io_pno_digits_bounds, io_pno_digits_below}
use e.Tests.Tasks.{sample, no_input}

-- A world is what is left of its one file.
abbrev read : ℕ → ℕ → Bytes → Answer Bytes Bytes
read fd n [] = record { res = e_eof; out = []; ior = 0; world = [] }
read fd n (c ∷ cs) = record { res = 0; out = c ∷ []; ior = 0; world = cs }

abbrev pub io : IoFunc Bytes
io = record {
  accept = none;
  key = none;
  type = none;
  dlclose = none;
  dlopen = none;
  dlsym = none;
  keyq = none;
  ms = none;
  unixtime = none;
  file_close = none;
  file_open = none;
  file_read = some read;
  file_create = none;
  file_delete = none;
  file_position = none;
  file_reposition = none;
  file_resize = none;
  file_size = none;
  file_flush = none;
  file_rename = none;
}

abbrev unread : Bytes → Bytes
unread w = w

reads : (fd : ℕ) → Reads read fd unread
reads fd = record {
  at_end = λ w e. ends w e;
  end_kept = λ w e. kept w e;
  at_byte = λ w c cs e. at w c cs e;
  byte_taken = λ w c cs e. taken w c cs e;
}
  where
    ends : (w : Bytes) → w ≡ [] → ((read fd 1 w).res ≡ e_eof) × ((read fd 1 w).out ≡ [])
    ends [] e = (refl, refl)
    ends (c ∷ cs) e = cc

    kept : (w : Bytes) → w ≡ [] → (read fd 1 w).world ≡ []
    kept [] e = refl
    kept (c ∷ cs) e = cc

    at :
        (w : Bytes) (c : ℕ) (cs : Bytes)
        → w ≡ c ∷ cs
        → ((read fd 1 w).res ≡ e_ok) × ((read fd 1 w).out ≡ c ∷ [])
    at [] c cs e = cc
    at (d ∷ ds) c cs e = (refl, cc)

    taken : (w : Bytes) (c : ℕ) (cs : Bytes) → w ≡ c ∷ cs → (read fd 1 w).world ≡ cs
    taken [] c cs e = cc
    taken (d ∷ ds) c cs e = cc

-- Two lines; the second does not end.
abbrev two_lines : Bytes
two_lines = 97 ∷ 98 ∷ 99 ∷ 10 ∷ 100 ∷ []

io_file_readline_example :
    (r : LineResult Bytes) × (io_file_readline 20 io sample 3 2 two_lines ≡ some r)
    × (r.text ≡ take 2 (line_of two_lines))
    × (r.n ≡ length r.text)
    × (r.res ≡ line_res two_lines r.text)
    × (r.world ≡ after_line two_lines)
    × (r.task.io_src ≡ no_input)
    × (r.task.mem ≡ sample.mem)
io_file_readline_example =
    io_file_readline_lem io read sample 3 2 20 unread two_lines refl (reads 3) (omega arith)

abbrev included : Task
included = record sample {
  io_src = record { buffer = 800; sid = 3; to_in = 5; length = 5; sz = 2 };
}

io_refill_file_example :
    (r : Refilled Bytes) × (io_refill 20 io included two_lines ≡ some r)
    × (r.res ≡ e_ok)
    × (r.bf ≡ bf_true)
    × (r.task.io_src.to_in ≡ 0)
    × (r.task.io_src.buffer ≡ 800)
    × (load_text r.task.mem r.task.io_src.buffer r.task.io_src.length ≡ 97 ∷ 98 ∷ [])
    × (r.world ≡ 100 ∷ [])
unfolding line_of after_line ends_line
io_refill_file_example =
    io_refill_file io read included 20 unread two_lines refl (reads 3) (omega arith) (omega arith)
      (omega arith) (omega arith)

abbrev typed : Task
typed = record sample { io_src = record no_input { to_in = 2; length = 9 } }

io_parse_bounds_example :
    (168 + 2 ≤ (io_parse typed 32 f_skip_leading).out)
    × ((io_parse typed 32 f_skip_leading).out + (io_parse typed 32 f_skip_leading).length ≤ 168 + 9)
    × ((io_parse typed 32 f_skip_leading).task.io_src.to_in
        ≡ (io_parse typed 32 f_skip_leading).out
          + (io_parse typed 32 f_skip_leading).length
          + 1
          - 168)
    × (2 < (io_parse typed 32 f_skip_leading).task.io_src.to_in)
    × ((io_parse typed 32 f_skip_leading).task.io_src.to_in ≤ 9 + 1)
    × ((io_parse typed 32 f_skip_leading).task
        ≡ set_in (io_parse typed 32 f_skip_leading).task.io_src.to_in typed)
io_parse_bounds_example = io_parse_bounds typed 32 f_skip_leading (omega arith) (omega arith)

-- A pad at 320, and HERE at 300.
abbrev painter : Task
painter = record sample { here = 300; pad = 40 }

abbrev texts : List Bytes
texts = (41 ∷ 10 ∷ []) ∷ (52 ∷ 50 ∷ []) ∷ (40 ∷ []) ∷ []

io_pno_finish_example :
    (p : Picture) × ((io_pno_finish (holds_each (io_pno_start painter) texts)).out ≡ some p)
    × ((io_pno_finish (holds_each (io_pno_start painter) texts)).res ≡ e_ok)
    × (load_text
          (io_pno_finish (holds_each (io_pno_start painter) texts)).task.mem
          p.out_buf
          p.out_sz
        ≡ 40 ∷ 52 ∷ 50 ∷ 41 ∷ 10 ∷ [])
    × (load_text (io_pno_finish (holds_each (io_pno_start painter) texts)).task.mem 0 300
        ≡ load_text painter.mem 0 300)
    × ((io_pno_finish (holds_each (io_pno_start painter) texts)).task.pno.offset ≡ 0)
unfolding picture_of
io_pno_finish_example =
    io_pno_finish_lem painter texts (omega arith) (omega arith) (unfold total in omega arith)
      (omega arith)

abbrev painting : Task
painting = record painter { pno = record { end = 319; offset = 310 } }

abbrev minus_42 : Double
minus_42 = record { high = 2 ^ 64 - 1; low = 2 ^ 64 - 42 }

io_pno_digits_bounds_example :
    (r : PnoDigits) × (io_pno_digits painting minus_42 1 ≡ some r)
    × (300 < r.task.pno.offset)
    × (r.task.pno.offset ≤ 310)
    × (load_text r.task.mem 0 300 ≡ load_text painting.mem 0 300)
io_pno_digits_bounds_example =
    io_pno_digits_bounds painting minus_42 1 (omega arith) (omega arith) (omega arith) (omega arith)
      (omega arith)

abbrev no_room : Task
no_room = record painter { pno = record { end = 319; offset = 300 } }

abbrev forty_two : Double
forty_two = record { high = 0; low = 42 }

io_pno_digits_below_example :
    (r : PnoDigits) × (ds : List ℕ) × (io_pno_digits no_room forty_two 0 ≡ some r)
    × (r.res ≡ e_ok)
    × (horner 10 0 ds ≡ 42)
    × All (λ d. d < 10) ds
    × (2 ≤ length ds)
    × (r.task.pno.offset + length ds ≡ 300)
    × (load_text r.task.mem (300 + 1 - length ds) (length ds) ≡ map numeral ds)
io_pno_digits_below_example =
    io_pno_digits_below no_room forty_two (omega arith) (omega arith) refl (omega arith)
      (omega arith) (omega arith) (omega arith)

-- ===== src/Io/Line/Reads.antt =====
-- Lines of a file whose callback reads one byte after the other.
use e.Base.{
  ℕ, zero, suc, ◌+◌, ◌-◌, ◌<◌, ◌≤◌, ◌≡◌, refl, sym, ap, ◌∙◌, arith, true, false, ◌&&◌, ltb, ◌==◌,
  if◌then◌else◌, some, Bytes, [], ◌∷◌, ◌++◌, length, take, append-nil, Bool-cases, inl, inr,
}
use e.Errors.{e_ok, e_eof}
use e.Task.{Task}
use e.Space.Members.{task_ior}
use e.Io.{Answer, IoFunc}
use e.Io.File.{io_file_read}
use e.Io.Line.Split.{line_of, after_line, ends_line, line_res, take-nil, take_more, stored_room}
use e.Io.Line.{LineState, LineResult, read_byte, finish_line, readline_loop, io_file_readline}

-- The callback reads the next byte of a file, or reports its end; `unread` is what is left of the
-- file in a world.
pub record Reads {W : Type 0} (read : ℕ → ℕ → W → Answer W Bytes) (fd : ℕ) (unread : W → Bytes)
    : Type 0 where
  pub at_end : (w : W) → unread w ≡ [] → ((read fd 1 w).res ≡ e_eof) × ((read fd 1 w).out ≡ [])
  pub end_kept : (w : W) → unread w ≡ [] → unread (read fd 1 w).world ≡ []
  pub at_byte :
      (w : W) (c : ℕ) (cs : Bytes)
      → unread w ≡ c ∷ cs
      → ((read fd 1 w).res ≡ e_ok) × ((read fd 1 w).out ≡ c ∷ [])
  pub byte_taken :
      (w : W) (c : ℕ) (cs : Bytes) → unread w ≡ c ∷ cs → unread (read fd 1 w).world ≡ cs

module _ {W : Type 0} (io : IoFunc W) (read : ℕ → ℕ → W → Answer W Bytes) (fd n : ℕ)
    (unread : W → Bytes) (given : io.file_read ≡ some read) (reads : Reads read fd unread) where
  -- A round keeps the input source and the memory.
  read_keeps :
      (s : LineState W)
      → ((read_byte io fd n s).task.io_src ≡ s.task.io_src)
        × ((read_byte io fd n s).task.mem ≡ s.task.mem)
  unfolding read_byte io_file_read task_ior
  read_keeps s = (rw given refl, rw given refl)

  -- A round at the end of the file, and one at a byte.
  read_end :
      (s : LineState W)
      → s.r_now ≡ 1
      → unread s.world ≡ []
      → ((read_byte io fd n s).res ≡ e_eof)
        × ((read_byte io fd n s).text ≡ s.text)
        × (unread (read_byte io fd n s).world ≡ [])
  unfolding read_byte io_file_read
  read_end s one empty =
      let a = reads.at_end s.world empty in
      (
        rw (given, one) a.0,
        rw (given, one, a.1) (ground arith),
        rw (given, one) (reads.end_kept s.world empty),
      )

  read_one :
      (s : LineState W) (c : ℕ) (cs : Bytes)
      → s.r_now ≡ 1
      → unread s.world ≡ c ∷ cs
      → length s.text ≤ n
      → let s' = read_byte io fd n s in
        (s'.res ≡ e_ok)
        × (s'.ch ≡ c)
        × (s'.r_now ≡ 1)
        × (s'.text ≡ s.text ++ take (n - length s.text) (c ∷ []))
        × (unread s'.world ≡ cs)
  unfolding read_byte io_file_read
  read_one s c cs one more room =
      let a = reads.at_byte s.world c cs more in
      (
        rw (given, one) a.0,
        rw (given, one, a.1) refl,
        rw (given, one, a.1) refl,
        rw (given, one, a.1) (stored s.text),
        rw (given, one) (reads.byte_taken s.world c cs more),
      )
    where
      stored :
          (text : Bytes)
          → (if ltb (length text) n && true then text ++ c ∷ [] else text)
            ≡ text ++ take (n - length text) (c ∷ [])
      stored text = elim (Bool-cases (ltb (length text) n)) [
        | inl room ↦
            let left : n - length text ≡ suc (n - length text - 1) = ground arith in
            rw (room, left, take-nil (n - length text - 1)) refl
        | inr no_room ↦
            let left : n - length text ≡ 0 = ground arith in
            rw (no_room, left, append-nil text) refl
      ]

  -- A round at a byte goes on to the next round.
  round :
      (fuel : ℕ) (s : LineState W) (c : ℕ) (cs : Bytes)
      → (s.ch == 10) ≡ false
      → s.r_now ≡ 1
      → unread s.world ≡ c ∷ cs
      → length s.text ≤ n
      → readline_loop (suc fuel) io fd n s ≡ readline_loop fuel io fd n (read_byte io fd n s)
  unfolding readline_loop
  round fuel s c cs going one more room =
      let got = read_one s c cs one more room in
      let s' = read_byte io fd n s in
      let test : (s'.res == e_eof) ≡ false = ground (arith, got.0) in
      let test' : (s'.res == 0) ≡ true = ground (arith, got.0) in
      let test'' : (s'.r_now == 0) ≡ false = ground (arith, got.2) in
      rw (readline_loop, going, test, test', test'') refl

  stop :
      (fuel : ℕ) (s : LineState W)
      → 0 < fuel
      → (s.ch == 10) ≡ true
      → readline_loop fuel io fd n s ≡ some (finish_line s.res s)
  unfolding readline_loop
  stop zero s enough at = absurd (omega arith)
  stop (suc fuel) s enough at = rw (readline_loop, at) refl

  -- What the rounds come to that are left before the end of a line.
  abbrev Read : ℕ → LineState W → Bytes → Bytes → Type 0
  Read fuel s bytes text =
      (r : LineResult W) × (readline_loop fuel io fd n s ≡ some r)
      × (r.text ≡ text)
      × (r.n ≡ length text)
      × (r.res ≡ line_res bytes text)
      × (unread r.world ≡ after_line bytes)
      × (r.task.io_src ≡ s.task.io_src)
      × (r.task.mem ≡ s.task.mem)

  loop_lem :
      (bytes : Bytes) (fuel : ℕ) (s : LineState W)
      → length bytes + 1 < fuel
      → unread s.world ≡ bytes
      → (s.ch == 10) ≡ false
      → s.r_now ≡ 1
      → length s.text ≤ n
      → Read fuel s bytes (s.text ++ take (n - length s.text) (line_of bytes))
  unfolding line_of after_line ends_line finish_line
  loop_lem [] zero s enough at going one room = absurd (omega arith)
  loop_lem [] (suc fuel) s enough at going one room =
      let ended = read_end s one at in
      let kept = read_keeps s in
      let s' = read_byte io fd n s in
      let whole : s.text ++ take (n - length s.text) [] ≡ s.text =
        rw (take-nil (n - length s.text)) (append-nil s.text) in
      let text' : s'.text ≡ s.text ++ take (n - length s.text) [] = ended.1 ∙ sym whole in
      (
        finish_line (if ltb 0 (length s'.text) then e_ok else s'.res) s',
        unfold readline_loop in
            (let test : (s'.res == e_eof) ≡ true = ground (arith, ended.0) in
              rw (readline_loop, going, test) refl),
        text',
        ap length text',
        ap (λ (b : Bytes). if ltb 0 (length b) then e_ok else s'.res) text'
            ∙ ap
                (λ (e : ℕ).
                  if ltb 0 (length (s.text ++ take (n - length s.text) [])) then e_ok else e)
                ended.0,
        ended.2,
        kept.0,
        kept.1,
      )
  loop_lem (c ∷ cs) zero s enough at going one room = absurd (omega arith)
  loop_lem (c ∷ cs) (suc fuel) s enough at going one room =
      let got = read_one s c cs one at room in
      let s' = read_byte io fd n s in
      let step = round fuel s c cs going one at room in
      let kept = read_keeps s in
      elim (Bool-cases (c == 10)) [
        | inl ends ↦
            let at_end : (s'.ch == 10) ≡ true = rw got.1 ends in
            (
              finish_line s'.res s',
              step ∙ stop fuel s' (omega arith) at_end,
              rw ends got.3,
              rw ends (ap length got.3),
              rw ends got.0,
              rw ends got.4,
              kept.0,
              kept.1,
            )
        | inr goes ↦
            let going' : (s'.ch == 10) ≡ false = rw got.1 goes in
            let room' : length s'.text ≤ n = rw got.3 (stored_room n s.text c room) in
            let rest = loop_lem cs fuel s' (omega arith) got.4 going' got.2 room' in
            let text' : s'.text ++ take (n - length s'.text) (line_of cs)
                ≡ s.text ++ take (n - length s.text) (c ∷ line_of cs) =
              rw got.3 (take_more n s.text (line_of cs) c) in
            (
              rest.0,
              step ∙ rest.1,
              rw goes (rest.2 ∙ text'),
              rw goes (rest.3 ∙ ap length text'),
              rw goes (rest.4 ∙ ap (line_res cs) text'),
              rw goes rest.5,
              rest.6 ∙ kept.0,
              rest.7 ∙ kept.1,
            )
      ]

-- Where the callback reads the bytes of a file one after the other, e4__io_file_readline of at most
-- `n` bytes ends, with fuel for two rounds more than the file has bytes left. It stores the first
-- `n` bytes of the line, with the byte that ends it, and the length of what it stores; it skips
-- the rest of the line. It returns OK where the line ends or something is stored, and else EOF.
-- The input source and the memory of the task are as before.
pub io_file_readline_lem :
    {W : Type 0} (io : IoFunc W) (read : ℕ → ℕ → W → Answer W Bytes) (task : Task) (fd n fuel : ℕ)
    (unread : W → Bytes) (w : W)
    → io.file_read ≡ some read
    → Reads read fd unread
    → length (unread w) + 1 < fuel
    → (r : LineResult W) × (io_file_readline fuel io task fd n w ≡ some r)
      × (r.text ≡ take n (line_of (unread w)))
      × (r.n ≡ length r.text)
      × (r.res ≡ line_res (unread w) r.text)
      × (unread r.world ≡ after_line (unread w))
      × (r.task.io_src ≡ task.io_src)
      × (r.task.mem ≡ task.mem)
unfolding io_file_readline
io_file_readline_lem io read task fd n fuel unread w given reads enough =
    let start : LineState _ = record {
      ch = 0;
      r_now = 1;
      res = 0;
      text = [];
      task = task;
      world = w;
    } in
    let ran =
      loop_lem io read fd n unread given reads (unread w) fuel start enough refl refl refl
        (omega arith) in
    let whole : n - 0 ≡ n = omega arith in
    (
      ran.0,
      ran.1,
      ran.2 ∙ ap (λ (k : ℕ). take k (line_of (unread w))) whole,
      ran.3 ∙ ap length (sym ran.2),
      ran.4 ∙ ap (line_res (unread w)) (sym ran.2),
      ran.5,
      ran.6,
      ran.7,
    )

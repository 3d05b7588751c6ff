-- ===== src/Io/Line.antt =====
-- e4__io_file_readline of core/src/kernel/io.c.
pub mod Split
pub mod Reads
use e.Base.{
  ℕ, zero, suc, ◌+◌, ◌-◌, ◌<◌, ◌≤◌, ◌≡◌, ◌≢◌, refl, arith, Bool, true, false, ◌&&◌, not, ltb, ◌==◌,
  if◌then◌else◌, Option, none, some, Bytes, List, [], ◌∷◌, ◌++◌, length, take, get_or,
}
use e.Errors.{e_ok, e_eof, e_bug}
use e.Task.{Task}
use e.Io.{Answer, IoFunc}
use e.Io.File.{FileResult, io_file_read}

-- What a loop over the bytes of a line works on: the last byte, the number of bytes that are asked
-- for and read at once, and the text that is stored.
pub record LineState (W : Type 0) : Type 0 where
  pub ch : ℕ
  pub r_now : ℕ
  pub res : ℕ
  pub text : Bytes
  pub task : Task
  pub world : W

-- The result; `n` is what the pointer to the length points to afterwards.
pub record LineResult (W : Type 0) : Type 0 where
  pub res : ℕ
  pub n : ℕ
  pub text : Bytes
  pub task : Task
  pub world : W

module _ {W : Type 0} where
  -- A call of e4__io_file_read for the next byte, and the store of the byte where there is room.
  unfoldable pub read_byte : IoFunc W → ℕ → ℕ → LineState W → LineState W
  read_byte io fd n s =
      let r = io_file_read io s.task fd s.r_now s.world in
      let ch : ℕ = elim r.out [ none ↦ s.ch | some bytes ↦ get_or bytes 0 s.ch ] in
      let r_now : ℕ = elim r.out [ none ↦ s.r_now | some bytes ↦ length bytes ] in
      record {
        ch = ch;
        r_now = r_now;
        res = r.res;
        text = if ltb (length s.text) n && not (r_now == 0) then s.text ++ ch ∷ [] else s.text;
        task = r.task;
        world = r.world;
      }

  -- The end of the function: an error leaves the length as it is.
  unfoldable pub finish_line : ℕ → LineState W → LineResult W
  finish_line res s = record {
    res = res;
    n = length s.text;
    text = s.text;
    task = s.task;
    world = s.world;
  }

  unfoldable pub fail_line : ℕ → ℕ → LineState W → LineResult W
  fail_line n res s = record { res = res; n = n; text = s.text; task = s.task; world = s.world }

  -- The loop, with fuel for its rounds.
  unfoldable pub readline_loop : ℕ → IoFunc W → ℕ → ℕ → LineState W → Option (LineResult W)
  readline_loop zero io fd n s = none
  readline_loop (suc fuel) io fd n s =
      let s' = read_byte io fd n s in
      elim (s.ch == 10) [
        | true ↦ some (finish_line s.res s)
        | false ↦ elim (s'.res == e_eof) [
          | true ↦ some (finish_line (if ltb 0 (length s'.text) then e_ok else s'.res) s')
          | false ↦ elim (s'.res == 0) [
            | false ↦ some (fail_line n s'.res s')
            | true ↦ elim (s'.r_now == 0) [
              | true ↦ some (fail_line n e_bug s')
              | false ↦ readline_loop fuel io fd n s'
            ]
          ]
        ]
      ]

  -- e4__io_file_readline, for a line of `n` bytes at most.
  unfoldable pub io_file_readline : ℕ → IoFunc W → Task → ℕ → ℕ → W → Option (LineResult W)
  io_file_readline fuel io task fd n w =
      readline_loop fuel io fd n
        (record { ch = 0; r_now = 1; res = 0; text = []; task = task; world = w })

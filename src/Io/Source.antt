-- ===== src/Io/Source.antt =====
-- The input source in core/src/kernel/io.c: e4__io_parse, e4__io_word and e4__io_refill. The input
-- buffer and `here` are addresses in memory.
pub mod Words
pub mod Refill
use e.Base.{
  ℕ, zero, suc, ◌+◌, ◌-◌, ◌%◌, Bool, true, false, ltb, ◌==◌, if◌then◌else◌, Option, none, some,
  Bytes, length, take, [], ◌∷◌, ◌^◌,
}
use e.Errors.{e_ok}
use e.Usize.{modulus, max_usize}
use e.Task.{Task, InputSource, Memory}
use e.Task.ByteAccess.{load_text, store_byte, store_text}
use e.Mem.Text.{f_skip_leading, mem_parse, Parsed}
use e.Io.{IoFunc, io_accept}
use e.Io.Line.{io_file_readline, LineResult}

-- A word of the input: its address and its length, and the task after it.
pub record ParsedWord : Type 0 where
  pub out : ℕ
  pub length : ℕ
  pub task : Task

-- The bytes of the input buffer from >IN on.
unfoldable pub rest_of_input : Task → Bytes
rest_of_input task =
    load_text task.mem (task.io_src.buffer + task.io_src.to_in) (
      if ltb task.io_src.to_in task.io_src.length
      then task.io_src.length - task.io_src.to_in
      else 0)

abbrev pub set_in : ℕ → Task → Task
set_in n task = record task { io_src = record task.io_src { to_in = n } }

-- e4__io_parse
unfoldable pub io_parse : Task → ℕ → ℕ → ParsedWord
io_parse task delim flags =
    let input = rest_of_input task in
    let parsed = mem_parse input delim flags in
    let word = task.io_src.buffer + task.io_src.to_in + (length input - length parsed.out) in
    record {
      out = word;
      length = parsed.length;
      task = set_in ((word + parsed.length + 1 - task.io_src.buffer) % modulus) task;
    }

-- e4__io_word, which returns `here`.
unfoldable pub io_word : Task → ℕ → Task
io_word task delim =
    let parsed = io_parse task delim f_skip_leading in
    let clamped = if ltb parsed.length 256 then parsed.length else 255 in
    let counted = store_byte task.mem task.here clamped in
    let text = load_text counted parsed.out clamped in
    record parsed.task { mem = store_text counted (task.here + 1) text }

-- e4__SID_STR and e4__SID_UID as words, and e4__BF_TRUE
abbrev pub sid_str : ℕ
sid_str = 2 ^ 64 - 1

abbrev pub sid_uid : ℕ
sid_uid = 0

abbrev pub bf_true : ℕ
bf_true = max_usize

-- What e4__io_refill returns and writes through its pointer, the task and the world after it.
pub record Refilled (W : Type 0) : Type 0 where
  pub res : ℕ
  pub bf : ℕ
  pub task : Task
  pub world : W

module _ {W : Type 0} where
  -- The buffer of an input source after its callback: an error leaves it empty.
  unfoldable pub refilled : ℕ → ℕ → Bytes → Task → W → Refilled W
  refilled res n text task w = record {
    res = res;
    bf = if res == 0 then bf_true else 0;
    task = record task {
      mem = store_text task.mem task.io_src.buffer text;
      io_src = record task.io_src { to_in = 0; length = if res == 0 then n else 0 };
    };
    world = w;
  }

  -- e4__io_refill, in a build with files, with fuel for the bytes of a line.
  unfoldable pub io_refill : ℕ → IoFunc W → Task → W → Option (Refilled W)
  io_refill fuel io task w =
      let sid = task.io_src.sid in
      let sz = task.io_src.sz in
      let accepted = io_accept io sz w in
      let text : Bytes = elim accepted.out [ none ↦ [] | some t ↦ t ] in
      let n : ℕ = elim accepted.out [ none ↦ sz | some t ↦ length t ] in
      let from_file : Option (Refilled W) = elim (io_file_readline fuel io task sid sz w) [
        | none ↦ none
        | some r ↦ some (refilled r.res r.n r.text r.task r.world)
      ] in
      if ltb sid sid_str
      then (if sid == sid_uid
          then some (refilled accepted.res n text task accepted.world)
          else from_file)
      else some (record { res = e_ok; bf = 0; task = task; world = w })

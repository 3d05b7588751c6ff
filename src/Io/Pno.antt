-- ===== src/Io/Pno.antt =====
-- Pictured numeric output into the memory of a task: e4__io_pno_start, _digit, _digits, _hold, _holds
-- and _finish of core/src/kernel/io.c. The text is written from its end, below the pad; 0 stands
-- for NULL. `none` is a division that goes on.
pub mod Holds
pub mod Digits
pub mod Signed
use e.Base.{
  ℕ, suc, ◌+◌, ◌-◌, ◌*◌, ◌%◌, Bool, true, false, ltb, ◌==◌, if◌then◌else◌, Option, none, some,
  Bytes, [], ◌∷◌, length,
}
use e.Errors.{e_ok, e_invmemaddr, e_pnooverflow}
use e.Usize.{Double, modulus}
use e.Task.{Task, PnoState, Memory}
use e.Task.ByteAccess.{store_text}
use e.Mem.Layout.{cell_sz}
use e.Mem.Pictured.{Pictured, pno_digit, pno_digits, pno_hold, pno_holds}
use e.Dict.{Returned}

-- What is written in front of the text so far.
unfoldable pub write_down : Task → Bytes → Task
write_down task text = record task {
  mem = store_text task.mem (task.pno.offset + 1 - length text) text;
  pno = record task.pno { offset = task.pno.offset - length text };
}

-- e4__io_pno_start
unfoldable pub io_pno_start : Task → Task
io_pno_start task =
    let end = task.pad * cell_sz - 1 in record task { pno = record { end = end; offset = end } }

-- What e4__io_pno_digit and _digits return, the double word that they leave, and the task.
pub record PnoDigits : Type 0 where
  pub res : ℕ
  pub ud : Double
  pub task : Task

unfoldable pub written_digits : Task → Option Pictured → Option PnoDigits
written_digits task none = none
written_digits task (some p) =
    some (record { res = p.res; ud = p.ud; task = write_down task p.text })

-- The guard of the four functions that write.
unfoldable pub pno_guard : Task → ℕ
pno_guard task =
    if task.pno.offset == 0
    then e_invmemaddr
    else if ltb task.pno.offset task.here
    then e_pnooverflow
    else e_ok

-- e4__io_pno_digit
unfoldable pub io_pno_digit : Task → Double → Option PnoDigits
unfolding pno_guard
io_pno_digit task ud =
    let written = written_digits task (pno_digit [] (task.base % 256) ud) in
    if pno_guard task == e_ok
    then written
    else some (record { res = pno_guard task; ud = ud; task = task })

-- e4__io_pno_digits; the room for digits wraps.
unfoldable pub io_pno_digits : Task → Double → ℕ → Option PnoDigits
unfolding pno_guard
io_pno_digits task ud flags =
    let avail_len = (task.pno.offset - task.here + modulus - 1) % modulus in
    let written = written_digits task (pno_digits [] avail_len (task.base % 256) flags ud) in
    if pno_guard task == e_ok
    then written
    else some (record { res = pno_guard task; ud = ud; task = task })

-- e4__io_pno_hold
unfoldable pub io_pno_hold : Task → ℕ → Returned
unfolding pno_guard
io_pno_hold task c =
    if pno_guard task == e_ok
    then record { res = e_ok; task = write_down task (pno_hold [] c) }
    else record { res = pno_guard task; task = task }

-- e4__io_pno_holds
unfoldable pub io_pno_holds : Task → Bytes → Returned
io_pno_holds task s =
    if task.pno.offset == 0
    then record { res = e_invmemaddr; task = task }
    else if ltb ((task.pno.offset + modulus - length s) % modulus)
        ((task.here + modulus - 1) % modulus)
    then record { res = e_pnooverflow; task = task }
    else record { res = e_ok; task = write_down task (pno_holds [] s) }

-- The text that e4__io_pno_finish finds: its address and its size.
pub record Picture : Type 0 where
  pub out_buf : ℕ
  pub out_sz : ℕ

-- What e4__io_pno_finish returns and writes, if it does.
pub record Finished : Type 0 where
  pub res : ℕ
  pub out : Option Picture
  pub task : Task

-- e4__io_pno_finish
unfoldable pub io_pno_finish : Task → Finished
io_pno_finish task =
    let over = ltb task.pno.offset ((task.here + modulus - 1) % modulus) in
    let picture : Picture = record {
      out_buf = task.pno.offset + 1;
      out_sz = task.pno.end - task.pno.offset;
    } in
    if task.pno.offset == 0
    then record { res = e_invmemaddr; out = none; task = task }
    else record {
      res = if over then e_pnooverflow else e_ok;
      out = if over then none else some picture;
      task = record task { pno = record { end = 0; offset = 0 } };
    }

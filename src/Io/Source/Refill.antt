-- ===== src/Io/Source/Refill.antt =====
-- What e4__io_refill reads from a file.
use e.Base.{
  ℕ, ◌+◌, ◌<◌, ◌≡◌, ◌≢◌, refl, ap, ◌∙◌, arith, true, false, ltb, ◌==◌, if◌then◌else◌, some, Bytes,
  [], length, take, inl, inr, Bool-cases,
}
use e.Task.{Task, Memory}
use e.Task.ByteAccess.{load_text, store_text, IsText, load_text-store_text}
use e.Io.{Answer, IoFunc}
use e.Io.Line.Split.{line_of, after_line, line_res}
use e.Io.Line.Reads.{Reads, io_file_readline_lem}
use e.Io.Source.{io_refill, refilled, Refilled, sid_str, sid_uid, bf_true}

buffered :
    (m : Memory) (at res res' n : ℕ) (text line : Bytes)
    → res ≡ res'
    → n ≡ length text
    → text ≡ line
    → IsText line
    → load_text (store_text m at text) at (if res == 0 then n else 0)
      ≡ (if res' == 0 then line else [])
buffered m at res res' n text line same size whole bytes = elim (Bool-cases (res' == 0)) [
  | inl good ↦ rw (same, good, size, whole) (load_text-store_text m at line bytes)
  | inr bad ↦ rw (same, bad) (unfold load_text in refl)
]

-- Where the input source is a file whose callback reads its bytes one after the other, e4__io_refill
-- ends, with fuel for two rounds more than the file has bytes left. Where the line ends or is not
-- empty, the input buffer holds the line, or as much of it as fits, >IN is 0 and the flag true;
-- otherwise it returns EOF, with an empty input and the flag false. The rest of the line is gone.
pub io_refill_file :
    {W : Type 0} (io : IoFunc W) (read : ℕ → ℕ → W → Answer W Bytes) (task : Task) (fuel : ℕ)
    (unread : W → Bytes) (w : W)
    → io.file_read ≡ some read
    → Reads read task.io_src.sid unread
    → task.io_src.sid ≢ sid_uid
    → task.io_src.sid < sid_str
    → IsText (take task.io_src.sz (line_of (unread w)))
    → length (unread w) + 1 < fuel
    → let line = take task.io_src.sz (line_of (unread w)) in
      let res = line_res (unread w) line in
      (r : Refilled W) × (io_refill fuel io task w ≡ some r)
      × (r.res ≡ res)
      × (r.bf ≡ (if res == 0 then bf_true else 0))
      × (r.task.io_src.to_in ≡ 0)
      × (r.task.io_src.buffer ≡ task.io_src.buffer)
      × (load_text r.task.mem r.task.io_src.buffer r.task.io_src.length
          ≡ (if res == 0 then line else []))
      × (unread r.world ≡ after_line (unread w))
unfolding io_refill refilled
io_refill_file io read task fuel unread w given reads file not_string bytes enough =
    let sz = task.io_src.sz in
    let line = take sz (line_of (unread w)) in
    let res = line_res (unread w) line in
    let ran =
      io_file_readline_lem io read task task.io_src.sid sz fuel unread w given reads enough in
    let r = ran.0 in
    let test : ltb task.io_src.sid sid_str ≡ true = ground arith in
    let test' : (task.io_src.sid == sid_uid) ≡ false = ground arith in
    let same_res : r.res ≡ res = ran.4 ∙ ap (line_res (unread w)) ran.2 in
    (
      refilled r.res r.n r.text r.task r.world,
      rw (test, test', ran.1) refl,
      same_res,
      rw same_res refl,
      refl,
      ap (λ s. s.buffer) ran.6,
      buffered r.task.mem r.task.io_src.buffer r.res res r.n r.text line same_res ran.3 ran.2 bytes,
      ran.5,
    )

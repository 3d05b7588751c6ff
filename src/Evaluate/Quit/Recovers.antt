-- ===== src/Evaluate/Quit/Recovers.antt =====
-- What the loop of e4__evaluate_quit makes of an error.
use e.Base.{
  All, ◌++◌, append-nil, ◌^◌, sym, ap, ◌∙◌, ℕ, ◌+◌, ◌-◌, ◌*◌, ◌%◌, ◌<◌, ◌≤◌, ◌≡◌, ◌≢◌, refl, arith,
  true, false, not, ltb, ◌==◌, Option, none, some, List, [], ◌∷◌, Bytes, length, codes, inl, inr,
  Bool-cases,
}
use e.Errors.{e_ok, e_quit, e_bye, e_abortq}
use e.Usize.{is_negative, modulus, has_flag, to_double, f_signed}
use e.Task.{Task}
use e.Stack.{clear}
use e.Mem.Layout.{cell_sz}
use e.Mem.Pictured.{Pictured, pno_holds}
use e.Task.ByteAccess.{IsText, load_text}
use e.Io.Pno.Holds.{IsBuilding, io_pno_holds_lem, written, written-write_down}
use e.Io.Pno.Signed.{
  signed_text, size_of, io_pno_digits_signed, signed_text-IsText, length-signed_text,
}
use e.Mem.Number.Loop.{horner}
use e.Dict.{dict_forget, mem_dict_lookup, f_builtin}
use e.Dict.Entry.{Header}
use e.Compile.{
  compile_cancel, compile_resume, cancel_resumed, comp_anonymous, comp_colon, comp_noname,
}
use e.Space.Members.{task_ior}
use e.Io.{IoFunc}
use e.Messages.{format_exception}
use e.Io.Pno.{
  io_pno_start, io_pno_holds, io_pno_digits, io_pno_finish, PnoDigits, Finished, written_digits,
  write_down, pno_guard,
}
use e.Evaluate.Quit.{
  Answered, recover, bracketed, typed, picture_text, report_exception, answer_line,
  has_platform_ior,
}

-- The stack is empty and nothing is compiled.
abbrev pub IsIdle : ℕ → Task → Type 0
IsIdle s0 t = (t.sp ≡ s0) × (t.compile.state ≡ 0)

forget-sp : (t : Task) (name : Bytes) → ((dict_forget t name).task.sp ≡ t.sp)
unfolding dict_forget
forget-sp t name = forgets (mem_dict_lookup t.dict name) refl
  where
    forgets :
        (found : List Header)
        → mem_dict_lookup t.dict name ≡ found
        → (dict_forget t name).task.sp ≡ t.sp
    forgets [] e = rw (dict_forget, e) refl
    forgets (h ∷ link) e = elim (Bool-cases (has_flag h.flags f_builtin)) [
      | inl kept ↦ rw (dict_forget, e, kept) refl
      | inr gone ↦ rw (dict_forget, e, gone) refl
    ]

cancel_resumed-IsIdle :
    (t : Task) (dict : List Header) → t.dict ≡ dict → IsIdle t.sp (cancel_resumed t)
unfolding cancel_resumed
cancel_resumed-IsIdle t dict e = elim (Bool-cases (t.compile.state == comp_anonymous)) [
  | inl a ↦ rw (cancel_resumed, a) (refl, refl)
  | inr not_a ↦ elim (Bool-cases (t.compile.state == 0)) [
    | inl zero ↦ rw (cancel_resumed, not_a, zero) (refl, ground arith)
    | inr some_state ↦ elim (Bool-cases (t.compile.state == comp_colon)) [
      | inl colon ↦ by_name dict e colon not_a some_state
      | inr not_colon ↦ elim (Bool-cases (t.compile.state == comp_noname)) [
        | inl noname ↦ rw (cancel_resumed, not_a, some_state, not_colon, noname) (refl, refl)
        | inr other ↦ rw (cancel_resumed, not_a, some_state, not_colon, other) (refl, refl)
      ]
    ]
  ]
]
  where
    by_name :
        (dict : List Header)
        → t.dict ≡ dict
        → (t.compile.state == comp_colon) ≡ true
        → (t.compile.state == comp_anonymous) ≡ false
        → (t.compile.state == 0) ≡ false
        → IsIdle t.sp (cancel_resumed t)
    by_name [] e colon not_a some_state =
        rw (cancel_resumed, not_a, some_state, colon, e) (refl, refl)
    by_name (h ∷ dict) e colon not_a some_state =
        rw (cancel_resumed, not_a, some_state, colon, e) (forget-sp t h.name, refl)

compile_cancel-IsIdle : (t : Task) → IsIdle t.sp (compile_cancel t)
unfolding compile_cancel compile_resume
compile_cancel-IsIdle t = elim (Bool-cases (not (t.compile.state == 0))) [
  | inl busy ↦ rw busy (cancel_resumed-IsIdle t t.dict refl)
  | inr idle ↦ rw idle (cancel_resumed-IsIdle _ t.dict refl)
]

recover-IsIdle : (res : ℕ) (t : Task) → IsIdle t.s0 (recover res t)
unfolding recover clear task_ior
recover-IsIdle res t = elim (Bool-cases (has_platform_ior res)) [
  | inl ior ↦ rw ior (compile_cancel-IsIdle _)
  | inr no_ior ↦ rw no_ior (compile_cancel-IsIdle _)
]

holds-IsIdle : (t : Task) (s : Bytes) (s0 : ℕ) → IsIdle s0 t → IsIdle s0 (io_pno_holds t s).task
unfolding io_pno_holds write_down
holds-IsIdle t s s0 idle = elim (Bool-cases (t.pno.offset == 0)) [
  | inl none_built ↦ rw (io_pno_holds, none_built) idle
  | inr built ↦
      elim (Bool-cases
        (ltb ((t.pno.offset + modulus - length s) % modulus) ((t.here + modulus - 1) % modulus))) [
          | inl over ↦ rw (io_pno_holds, built, over) idle
          | inr fits ↦ rw (io_pno_holds, built, fits) idle
        ]
]

abbrev EndsIdle : ℕ → Option PnoDigits → Type 0
EndsIdle s0 none = Unit
EndsIdle s0 (some r) = IsIdle s0 r.task

digits-EndsIdle :
    (t : Task) (res s0 : ℕ) → IsIdle s0 t → EndsIdle s0 (io_pno_digits t (to_double res) f_signed)
unfolding io_pno_digits written_digits write_down
digits-EndsIdle t res s0 idle = elim (Bool-cases (pno_guard t == e_ok)) [
  | inl good ↦ rw (io_pno_digits, good) (written-EndsIdle _)
  | inr bad ↦ rw (io_pno_digits, bad) idle
]
  where
    written-EndsIdle : (p : Option Pictured) → EndsIdle s0 (written_digits t p)
    written-EndsIdle none = tt
    written-EndsIdle (some p) = idle

finish-IsIdle : (t : Task) (s0 : ℕ) → IsIdle s0 t → IsIdle s0 (io_pno_finish t).task
unfolding io_pno_finish
finish-IsIdle t s0 idle = elim (Bool-cases (t.pno.offset == 0)) [
  | inl none_built ↦ rw (io_pno_finish, none_built) idle
  | inr built ↦ rw (io_pno_finish, built) idle
]

-- The text in front of the code in brackets fits.
holds_room :
    (t : Task) (s : Bytes)
    → IsBuilding t
    → IsText s
    → length s ≤ t.pno.offset
    → t.here + length s ≤ t.pno.offset + 1
    → let r = io_pno_holds t s in
      IsBuilding r.task
      × (r.task.here ≡ t.here)
      × (r.task.pno.offset ≡ t.pno.offset - length s)
      × (r.task.base ≡ t.base)
      × (written r.task ≡ s ++ written t)
unfolding io_pno_holds pno_holds write_down
holds_room t s building bytes short room =
    let held = io_pno_holds_lem t s 0 0 building bytes short (omega arith) in
    let nonzero : (t.pno.offset == 0) ≡ false = ground arith in
    let offset' : (t.pno.offset + modulus - length s) % modulus ≡ t.pno.offset - length s =
      omega arith in
    let here' : (t.here + modulus - 1) % modulus ≡ t.here - 1 = omega arith in
    let test : ltb (t.pno.offset - length s) (t.here - 1) ≡ false = ground arith in
    let fits : ltb (t.pno.offset + 1) (t.here + length s) ≡ false = ground arith in
    (
      held.2,
      held.4,
      rw (io_pno_holds, nonzero, offset', here', test, append-nil s) refl,
      rw (io_pno_holds, nonzero, offset', here', test) refl,
      rw fits at held.1,
    )

-- The picture so far after a text is written, and the room that is left.
written_on :
    (t : Task) (s : Bytes)
    → IsBuilding t
    → IsText s
    → t.here + length s ≤ t.pno.offset + 1
    → length s < t.pno.offset
    → IsBuilding (write_down t s) × (written (write_down t s) ≡ s ++ written t)
unfolding write_down
written_on t s building bytes room short = (
  (omega arith, omega arith, omega arith, omega arith, omega arith),
  written-write_down t s bytes (omega arith) (omega arith),
)

finished : (t : Task) → IsBuilding t → picture_text (io_pno_finish t) ≡ written t
unfolding io_pno_finish written
finished t building =
    let built : (t.pno.offset == 0) ≡ false = ground arith in
    let fits : ltb t.pno.offset ((t.here + modulus - 1) % modulus) ≡ false = ground arith in
    rw (io_pno_finish, built, fits) refl

start_written : (t : Task) → written (io_pno_start t) ≡ []
unfolding written io_pno_start load_text
start_written t =
    let end = t.pad * cell_sz - 1 in
    let none_left : end - end ≡ 0 = omega arith in rw none_left refl

-- The code in brackets.
abbrev pub code_text : ℕ → List ℕ → Bytes
code_text res ds = codes " (" ++ (signed_text (is_negative res) ds ++ codes ")\n")

-- The code in brackets is written, and the task is idle after it.
bracketed-IsIdle :
    (res s0 : ℕ) (t : Task)
    → IsIdle s0 t
    → res < 2 ^ 64
    → IsBuilding (io_pno_start t)
    → t.here + 136 ≤ t.pad * cell_sz
    → 2 ≤ t.base
    → t.base ≤ 36
    → (f : Finished) × (ds : List ℕ) × (bracketed res t ≡ some f)
      × IsIdle s0 f.task
      × (picture_text f ≡ code_text res ds)
      × (horner t.base 0 ds ≡ size_of res)
      × All (λ d. d < t.base) ds
unfolding bracketed io_pno_start write_down
bracketed-IsIdle res s0 t idle word building room low high =
    let text = codes ")\n" in
    let start = io_pno_start t in
    let held =
      holds_room start text building (omega arith, (omega arith, tt)) (omega arith) (omega arith) in
    let t1 = (io_pno_holds start text).task in
    let here : t1.here ≡ t.here = held.1 in
    let offset : t1.pno.offset ≡ t.pad * cell_sz - 1 - 2 = held.2 in
    let base : t1.base ≡ t.base = held.3 in
    let ran = io_pno_digits_signed t1 res word held.0 (omega arith) (omega arith) (omega arith) in
    let ds = ran.1 in
    let s = signed_text (is_negative res) ds in
    let short = length-signed_text (is_negative res) ds in
    let bound = ran.6 in
    let next =
      written_on t1 s held.0 (signed_text-IsText (is_negative res) ds) (omega arith)
        (omega arith) in
    let t2 = write_down t1 s in
    let last =
      holds_room t2 (codes " (") next.0 (omega arith, (omega arith, tt)) (omega arith)
        (omega arith) in
    let t3 = (io_pno_holds t2 (codes " (")).task in
    let kept = digits-EndsIdle t1 res s0 (holds-IsIdle start text s0 idle) in
    let kept' : IsIdle s0 ran.0.task = rw ran.2 at kept in
    let kept'' : IsIdle s0 t2 = rw ran.3 at kept' in
    (
      io_pno_finish t3,
      ds,
      rw (bracketed, ran.2)
          (ap (λ u. some (io_pno_finish (io_pno_holds u (codes " (")).task)) ran.3),
      finish-IsIdle t3 s0 (holds-IsIdle t2 (codes " (") s0 kept''),
      finished t3 last.0
          ∙ last.4
          ∙ ap (λ b. codes " (" ++ b)
              (next.1 ∙ ap (λ b. s ++ b) (held.4 ∙ ap (λ b. text ++ b) (start_written t))),
      ap (λ b. horner b 0 ds) (sym base) ∙ ran.4,
      rw base at ran.5,
    )

-- For a line that ends with an exception other than QUIT, BYE and ABORT", where the task after the
-- stack is cleared and the compilation cancelled has room for 136 bytes between HERE and PAD and a
-- base from 2 to 36: what is typed is " EXCEPTION: ", the message of the exception, and its code in
-- brackets, as a signed number in the base; the loop goes on, the parameter stack is empty and nothing
-- is compiled.
pub answer_line_recovers :
    {W : Type 0} (io : IoFunc W) (res : ℕ) (task : Task) (w : W)
    → res < 2 ^ 64
    → res ≢ e_ok
    → res ≢ e_quit
    → res ≢ e_bye
    → res ≢ e_abortq
    → IsBuilding (io_pno_start (recover res task))
    → (recover res task).here + 136 ≤ (recover res task).pad * cell_sz
    → 2 ≤ (recover res task).base
    → (recover res task).base ≤ 36
    → (a : Answered W) × (ds : List ℕ) × (answer_line io res task w ≡ some a)
      × (a.running ≡ true)
      × (a.task.sp ≡ task.s0)
      × (a.task.compile.state ≡ 0)
      × (a.world
          ≡ typed io
              (code_text res ds)
              (typed io (format_exception res) (typed io (codes " EXCEPTION: ") w)))
      × (horner (recover res task).base 0 ds ≡ size_of res)
      × All (λ d. d < (recover res task).base) ds
unfolding answer_line report_exception
answer_line_recovers io res task w word not_ok not_quit not_bye not_abortq building room low high =
    let b1 : (res == e_ok) ≡ false = ground arith in
    let b2 : (res == e_quit) ≡ false = ground arith in
    let b3 : (res == e_bye) ≡ false = ground arith in
    let b4 : (res == e_abortq) ≡ false = ground arith in
    let said =
      bracketed-IsIdle res task.s0 (recover res task) (recover-IsIdle res task) word building room
        low high in
    let typed_code = λ (text : Bytes).
      typed io text (typed io (format_exception res) (typed io (codes " EXCEPTION: ") w)) in
    (
      record { running = true; task = said.0.task; world = typed_code (picture_text said.0) },
      said.1,
      rw (answer_line, b1, b2, b3, b4, report_exception, said.2) refl,
      refl,
      said.3.0,
      said.3.1,
      ap typed_code said.4,
      said.5,
      said.6,
    )

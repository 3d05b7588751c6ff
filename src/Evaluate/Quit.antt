-- ===== src/Evaluate/Quit.antt =====
-- e4__evaluate_quit of core/src/kernel/evaluate.c: the loop that reads and evaluates lines and
-- reports their errors. What is written is given to the callback for typing.
pub mod Recovers
use e.Base.{
  ℕ, zero, suc, ◌+◌, ◌*◌, Bool, true, false, not, ◌||◌, ◌==◌, if◌then◌else◌, Option, none, some,
  Bytes, [], ◌∷◌, codes, ◌++◌,
}
use e.Errors.{
  e_ok, e_quit, e_bye, e_abortq, e_fileinvpos, e_fileio, e_filenoexist, e_close_file, e_open_file,
  e_read_file,
}
use e.Usize.{Double, to_double, f_signed}
use e.Task.{Task}
use e.Task.ByteAccess.{load_text}
use e.Stack.{clear}
use e.Exception.{Outcome, returns, throws, throw}
use e.Compile.{compile_cancel}
use e.Messages.{format_exception}
use e.Space.{task_compiling}
use e.Space.Members.{task_ior}
use e.Io.{IoFunc, io_type}
use e.Io.Source.{sid_uid}
use e.Io.Pno.{io_pno_start, io_pno_holds, io_pno_digits, io_pno_finish, PnoDigits, Finished}
use e.Mem.Layout.{cell_sz}
use e.Evaluate.File.{Ended, ends, jumps, FileSetting, evaluate_refill, then_evaluated}

-- The task and the world while an answer to a line is written, and whether the loop goes on.
pub record Answered (W : Type 0) : Type 0 where
  pub running : Bool
  pub task : Task
  pub world : W

-- The input source of a terminal, with an empty return stack.
unfoldable pub reset_quit : Task → Task
reset_quit task = record task {
  rp = task.r0;
  io_src = record {
    buffer = task.tib * cell_sz;
    sid = sid_uid;
    to_in = 0;
    length = 0;
    sz = task.tib_sz;
  };
}

-- e4__E_HAS_PLATFORM_IOR
abbrev pub has_platform_ior : ℕ → Bool
has_platform_ior e =
    e == e_fileinvpos
    || (e == e_fileio
        || (e == e_filenoexist || (e == e_close_file || (e == e_open_file || e == e_read_file))))

-- An uncaught exception clears the stack and cancels the compilation.
unfoldable pub recover : ℕ → Task → Task
recover res task =
    let t : Task = if has_platform_ior res then (task_ior task 0).task else task in
    compile_cancel (clear t)

-- The code in brackets, as pictured output, and the task after it.
unfoldable pub bracketed : ℕ → Task → Option Finished
bracketed res task =
    let t = (io_pno_holds (io_pno_start task) (codes ")\n")).task in
    elim (io_pno_digits t (to_double res) f_signed) [
      | none ↦ none
      | some d ↦ some (io_pno_finish (io_pno_holds d.task (codes " (")).task)
    ]

-- The text that is found, and none where there is no room for it.
abbrev pub picture_text : Finished → Bytes
picture_text f = elim f.out [ none ↦ [] | some p ↦ load_text f.task.mem p.out_buf p.out_sz ]

module _ {W : Type 0} where
  abbrev pub typed : IoFunc W → Bytes → W → W
  typed io text w = (io_type io text w).world

  -- The default case of the switch.
  unfoldable pub report_exception : IoFunc W → ℕ → Task → W → Option (Answered W)
  report_exception io res task w =
      let t = recover res task in
      let w' = typed io (format_exception res) (typed io (codes " EXCEPTION: ") w) in
      elim (bracketed res t) [
        | none ↦ none
        | some f ↦
            some (record { running = true; task = f.task; world = typed io (picture_text f) w' })
      ]

  -- The message of ABORT", once.
  unfoldable pub report_abortq : IoFunc W → Task → W → Answered W
  report_abortq io task w =
      let text = load_text task.mem task.abortq_msg task.abortq_msg_len in
      if task.abortq_msg == 0 then record { running = true; task = task; world = w } else record {
        running = true;
        task = record task { abortq_msg = 0; abortq_msg_len = 0 };
        world = typed io (codes "\n") (typed io text (typed io (codes " ") w));
      }

  -- The switch over the result of a line.
  unfoldable pub answer_line : IoFunc W → ℕ → Task → W → Option (Answered W)
  answer_line io res task w =
      let aborted = report_abortq io task w in
      if res == e_ok
      then some (record {
        running = true;
        task = task;
        world = if task_compiling task then w else typed io (codes " ok\n") w;
      })
      else if res == e_quit
      then some (record { running = true; task = task; world = w })
      else if res == e_bye
      then some (record { running = false; task = task; world = w })
      else if res == e_abortq
      then report_exception io res aborted.task aborted.world
      else report_exception io res task w

  -- One round of the loop, which no exception leaves: there is no handler around it.
  unfoldable pub quit_round : FileSetting W → IoFunc W → Task → W → Option (Answered W)
  quit_round s io task w = elim (then_evaluated s (evaluate_refill s io true (reset_quit task) w)) [
    | none ↦ none
    | some (jumps t w') ↦ none
    | some (ends res t w') ↦ answer_line io res t w'
  ]

  -- The loop, with fuel for its rounds.
  unfoldable pub quit_loop : (Task → W → Option (Answered W)) → ℕ → Task → W → Option (Ended W)
  quit_loop round zero task w = none
  quit_loop round (suc fuel) task w = elim (round task w) [
    | none ↦ none
    | some a ↦ elim a.running [
      | true ↦ quit_loop round fuel a.task a.world
      | false ↦ some (ends e_ok a.task a.world)
    ]
  ]

  -- e4__evaluate_quit: under a handler it throws QUIT.
  unfoldable pub evaluate_quit : FileSetting W → IoFunc W → ℕ → Task → W → Option (Ended W)
  evaluate_quit s io fuel task w =
      let looped = quit_loop (quit_round s io) fuel in
      elim (throw task e_quit) [ returns _ t ↦ looped t w | throws t ↦ some (jumps t w) ]

-- ===== src/Evaluate/File.antt =====
-- The evaluation of a file in core/src/kernel/evaluate.c: its lines are read into a buffer and
-- evaluated one after the other. What the evaluation of one line does, to the outside too, is an
-- argument, and so are the addresses of the buffers.
pub mod Lines
use e.Base.{
  ℕ, zero, suc, ◌+◌, ◌-◌, Bool, true, false, not, ◌||◌, ◌&&◌, ◌==◌, leb, if◌then◌else◌, Option,
  none, some, Bytes, length,
}
use e.Errors.{e_ok, e_eof, e_quit, e_incfoverflow}
use e.Task.{Task, FileException, InputSource}
use e.Stack.{ravail}
use e.Exception.{Outcome, returns, throws, throw, set_valid}
use e.Execute.{Run}
use e.Execute.Words.{Code, go_on, execute_ret}
use e.Space.Members.{task_fex, task_ior}
use e.Io.{IoFunc}
use e.Io.File.{FileResult, io_file_close, io_file_open}
use e.Io.Source.{io_refill, Refilled}
use e.Evaluate.{Setting, execute_thunk, catch_run, with_ok}
use e.Evaluate.Returns.{called}

abbrev pub fib_maxdepth : ℕ
fib_maxdepth = 4

abbrev pub fib_sz : ℕ
fib_sz = 130

abbrev pub f_read : ℕ
f_read = 0x01

-- Code on the outside returns a value, or jumps to a handler.
pub data Ended (W : Type 0) : Type 0 where
  ends : ℕ → Task → W → Ended W
  jumps : Task → W → Ended W

-- What the loop over the lines returns, with the number of the last line.
pub data FileLoop (W : Type 0) : Type 0 where
  stops : ℕ → ℕ → Task → W → FileLoop W
  leaves : Task → W → FileLoop W

-- What the evaluation of files depends on, besides the table of callbacks.
pub record FileSetting (W : Type 0) : Type 0 where
  pub setting : Setting
  pub fuel : ℕ
  pub fib : ℕ → ℕ
  pub evaluated : Task → W → Option (Ended W)

-- The error that is stored, unless a file further down has stored one.
unfoldable pub recorded : ℕ → ℕ → ℕ → ℕ → Task → Task
recorded res line path sz task =
    if task.fex.ex == 0 && not (res == 0)
    then record (task_ior task 0).task {
      fex = record {
        ex = res;
        ior = (task_ior task 0).res;
        line = line;
        path = path;
        path_sz = sz;
        buf = task.io_src.buffer;
        buf_sz = task.io_src.length;
      };
    }
    else task

module _ {W : Type 0} where
  abbrev pub in_world : Option (Outcome ℕ) → W → Option (Ended W)
  in_world none w = none
  in_world (some (returns res task)) w = some (ends res task w)
  in_world (some (throws task)) w = some (jumps task w)

  -- e4__evaluate_refill_wrapper
  unfoldable pub evaluate_refill_wrapper : FileSetting W → IoFunc W → W → Task → Run
  evaluate_refill_wrapper s io w task = elim (io_refill s.fuel io task w) [
    | none ↦ none
    | some r ↦ some (go_on (throw r.task r.res) (execute_ret s.setting.code))
  ]

  -- The world after refilling: the callback runs where the return stack has room for the wrapper.
  unfoldable pub refill_world : FileSetting W → IoFunc W → Task → W → W
  refill_world s io task w = elim (io_refill s.fuel io task w) [ none ↦ w | some r ↦ r.world ]

  -- e4__evaluate_refill
  unfoldable pub evaluate_refill : FileSetting W → IoFunc W → Bool → Task → W → Option (Ended W)
  evaluate_refill s io force_thunk task w =
      let thunk =
        catch_run s.setting.callback (execute_thunk (evaluate_refill_wrapper s io w)) task in
      let after = refill_world s io (called (set_valid true task)) w in
      let after' = if ravail task == 0 then w else after in
      let plain = with_ok (evaluate_refill_wrapper s io w task) in
      elim (not task.exception.valid || force_thunk) [
        | true ↦ in_world thunk after'
        | false ↦ in_world plain (refill_world s io task w)
      ]

  abbrev pub then_evaluated : FileSetting W → Option (Ended W) → Option (Ended W)
  then_evaluated s none = none
  then_evaluated s (some (jumps task w)) = some (jumps task w)
  then_evaluated s (some (ends res task w)) = elim (res == 0) [
    | true ↦ s.evaluated task w
    | false ↦ some (ends res task w)
  ]

  -- One round of the loop: a line is read and, where that succeeds, evaluated.
  unfoldable pub file_round : FileSetting W → IoFunc W → Task → W → Option (Ended W)
  file_round s io task w =
      let emptied = record task { io_src = record task.io_src { to_in = 0; length = 0 } } in
      then_evaluated s (evaluate_refill s io true emptied w)

  -- The loop, with fuel for its rounds, at the number of the line before.
  unfoldable pub file_loop : (Task → W → Option (Ended W)) → ℕ → ℕ → Task → W → Option (FileLoop W)
  file_loop round zero line task w = none
  file_loop round (suc fuel) line task w = elim (round task w) [
    | none ↦ none
    | some (jumps t w') ↦ some (leaves t w')
    | some (ends res t w') ↦ elim (res == e_ok || res == e_quit) [
      | true ↦ file_loop round fuel (line + 1) t w'
      | false ↦ some (stops (if res == e_eof then e_ok else res) (line + 1) t w')
    ]
  ]

  -- The task in which the lines are read: the next buffer is the input buffer.
  abbrev pub in_file : FileSetting W → ℕ → Task → Task
  in_file s fd task =
      let t = (task_fex task).task in
      record t {
        fib_depth = t.fib_depth + 1;
        io_src = record t.io_src { buffer = s.fib t.fib_depth; sid = fd; sz = fib_sz };
      }

  -- The end of e4__evaluate_file_internal after its loop.
  abbrev pub file_end : IoFunc W → ℕ → ℕ → ℕ → InputSource → Option (FileLoop W) → Option (Ended W)
  file_end io fd path sz old none = none
  file_end io fd path sz old (some (leaves task w)) = some (jumps task w)
  file_end io fd path sz old (some (stops res line task w)) =
      let stored = recorded res line path sz (record task { fib_depth = task.fib_depth - 1 }) in
      let closed = io_file_close io (record stored { io_src = old }) fd w in
      some (ends closed.res closed.task closed.world)

  -- e4__evaluate_file_internal, with fuel for its lines; the path is named by its address.
  unfoldable pub evaluate_file_internal :
      FileSetting W → IoFunc W → ℕ → ℕ → ℕ → ℕ → Task → W → Option (Ended W)
  evaluate_file_internal s io fuel fd path sz task w =
      let cleared = (task_fex task).task in
      elim (leb fib_maxdepth cleared.fib_depth) [
        | true ↦ some (ends e_incfoverflow cleared w)
        | false ↦
            file_end io fd path sz task.io_src
              (file_loop (file_round s io) fuel 0 (in_file s fd task) w)
      ]

  -- e4__evaluate_file
  unfoldable pub evaluate_file : FileSetting W → IoFunc W → ℕ → ℕ → Task → W → Option (Ended W)
  evaluate_file s io fuel fd task w = evaluate_file_internal s io fuel fd 0 0 task w

  -- e4__evaluate_path, of the path of `sz` bytes that `text` are; fopen writes the file.
  unfoldable pub evaluate_path :
      FileSetting W → IoFunc W → ℕ → ℕ → Bytes → Task → W → Option (Ended W)
  evaluate_path s io fuel path text task w =
      let cleared = (task_fex task).task in
      let opened = io_file_open io cleared text f_read w in
      elim (leb fib_maxdepth cleared.fib_depth) [
        | true ↦ some (ends e_incfoverflow cleared w)
        | false ↦ elim opened.out [
          | none ↦ some (ends opened.res opened.task opened.world)
          | some fd ↦ elim (opened.res == 0) [
            | false ↦ some (ends opened.res opened.task opened.world)
            | true ↦ evaluate_file_internal s io fuel fd path (length text) opened.task opened.world
          ]
        ]
      ]

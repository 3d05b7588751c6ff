-- ===== src/Evaluate/File/Lines.antt =====
-- What e4__evaluate_file_internal makes of the outcomes of its lines.
use mathlib.Core.Option
use e.Base.{
  ℕ, suc, ◌+◌, ◌-◌, ◌<◌, ◌≡◌, ◌≢◌, refl, sym, ap, ◌∙◌, arith, true, false, not, ◌||◌, ◌&&◌, ◌==◌,
  leb, if◌then◌else◌, Option, none, some, inl, inr, ◌⊎◌, Bool-cases,
}
use e.Errors.{e_ok, e_eof, e_quit}
use e.Task.{Task, FileException}
use e.Space.Members.{task_fex, task_ior}
use e.Io.{Answer, IoFunc}
use e.Io.File.{io_file_close, call_file}
use e.Evaluate.File.{
  Ended, ends, stops, FileSetting, file_round, file_loop, recorded, in_file, file_end, fib_maxdepth,
  evaluate_file_internal,
}

-- `Rounds round n t w t' w'`: `n` lines after which the loop goes on, from one state to another.
pub data Rounds {W : Type 0} (round : Task → W → Option (Ended W))
    : ℕ → Task → W → Task → W → Type 0 where
  no_lines : {t : Task} {w : W} → Rounds round 0 t w t w
  next_line :
      {n res : ℕ} {t t' t'' : Task} {w w' w'' : W}
      → round t w ≡ some (ends res t' w')
      → (res ≡ e_ok) ⊎ (res ≡ e_quit)
      → Rounds round n t' w' t'' w''
      → Rounds round (suc n) t w t'' w''

goes_on : (res : ℕ) → (res ≡ e_ok) ⊎ (res ≡ e_quit) → (res == e_ok || res == e_quit) ≡ true
goes_on res (inl e) = rw e refl
goes_on res (inr e) = rw e refl

module _ {W : Type 0} (round : Task → W → Option (Ended W)) where
  -- The loop after `n` lines, and where it ends.
  file_loop-Rounds :
      {n : ℕ} {t t' : Task} {w w' : W} (fuel from : ℕ)
      → Rounds round n t w t' w'
      → file_loop round (fuel + n) from t w ≡ file_loop round fuel (from + n) t' w'
  unfolding file_loop
  file_loop-Rounds fuel from (no_lines {t} {w}) =
      let size : fuel + 0 ≡ fuel = omega arith in
      let at : from + 0 ≡ from = omega arith in rw (size, at) refl
  file_loop-Rounds fuel from (next_line {n} {res} {t} {t'} {t''} {w} {w'} {w''} ran more rest) =
      let next : from + 1 + n ≡ from + suc n = omega arith in
      let size : fuel + suc n ≡ suc (fuel + n) = omega arith in
      rw (size, file_loop, ran, goes_on res more)
        (file_loop-Rounds fuel (from + 1) rest ∙ ap (λ k. file_loop round fuel k t'' w'') next)

  loop_stops :
      (n fuel res : ℕ) (t t' t'' : Task) (w w' w'' : W)
      → Rounds round n t w t' w'
      → round t' w' ≡ some (ends res t'' w'')
      → res ≢ e_ok
      → res ≢ e_quit
      → n < fuel
      → file_loop round fuel 0 t w
        ≡ some (stops (if res == e_eof then e_ok else res) (n + 1) t'' w'')
  unfolding file_loop
  loop_stops n fuel res t t' t'' w w' w'' rounds last bad no_quit enough =
      let size : suc (fuel - n - 1) + n ≡ fuel = omega arith in
      let other : (res == e_ok || res == e_quit) ≡ false = ground arith in
      let at : 0 + n ≡ n = omega arith in
      ap (λ k. file_loop round k 0 t w) (sym size)
      ∙ file_loop-Rounds (suc (fuel - n - 1)) 0 rounds
      ∙ rw (file_loop, last, other, at) refl

-- A call of a callback leaves the input source, the depth and the stored error.
abbrev SameFiles : Task → Task → Type 0
SameFiles task task' =
    (task'.io_src ≡ task.io_src) × (task'.fib_depth ≡ task.fib_depth) × (task'.fex ≡ task.fex)

call_file-SameFiles :
    {W A : Type 0} (f : Option (W → Answer W A)) (task : Task) (w : W)
    → SameFiles task (call_file f task w).task
unfolding call_file task_ior
call_file-SameFiles none task w = (refl, refl, refl)
call_file-SameFiles (some f) task w = (refl, refl, refl)

abbrev pub stored_error : ℕ → ℕ → ℕ → ℕ → Task → FileException
stored_error res line path sz task =
    if task.fex.ex == 0 && not (res == 0)
    then record {
      ex = res;
      ior = task.ior;
      line = line;
      path = path;
      path_sz = sz;
      buf = task.io_src.buffer;
      buf_sz = task.io_src.length;
    }
    else task.fex

recorded_lem :
    (res line path sz : ℕ) (task : Task)
    → ((recorded res line path sz task).fib_depth ≡ task.fib_depth)
      × ((recorded res line path sz task).fex ≡ stored_error res line path sz task)
unfolding recorded task_ior
recorded_lem res line path sz task = elim (Bool-cases (task.fex.ex == 0 && not (res == 0))) [
  | inl stores ↦ rw stores (refl, refl)
  | inr skips ↦ rw skips (refl, refl)
]

module _ {W : Type 0} (s : FileSetting W) (io : IoFunc W) (n fuel fd path sz : ℕ)
    (task t t'' : Task) (w w' w'' : W) (room : task.fib_depth < fib_maxdepth) (enough : n < fuel)
    (rounds : Rounds (file_round s io) n (in_file s fd task) w t w') where
  -- Where fewer than four files are open, and a file is evaluated in which `n` lines return OK or QUIT
  -- and the next one ends the evaluation with another code, at the depth of this file: the number of
  -- the file's buffer is free again, and the source of the input is the one of before. For EOF no
  -- error is stored; for another code the error, the code of the platform's error and the line,
  -- unless a file further down has stored one. That a line ends at the depth of the file has to be
  -- known: a nested file that is left by a jump does not lower it.
  pub evaluate_file_lem :
      (res : ℕ)
      → file_round s io t w' ≡ some (ends res t'' w'')
      → res ≢ e_ok
      → res ≢ e_quit
      → t''.fib_depth ≡ task.fib_depth + 1
      → let code = if res == e_eof then e_ok else res in
        (closed : ℕ) × (task' : Task) × (v : W) × (evaluate_file_internal s io fuel fd path sz task
            w
          ≡ some (ends closed task' v))
        × (task'.io_src ≡ task.io_src)
        × (task'.fib_depth ≡ task.fib_depth)
        × (task'.fex ≡ stored_error code (n + 1) path sz t'')
  unfolding evaluate_file_internal task_fex io_file_close
  evaluate_file_lem res last bad no_quit depth =
      let code = if res == e_eof then e_ok else res in
      let free : leb fib_maxdepth task.fib_depth ≡ false = ground arith in
      let done = record t'' { fib_depth = t''.fib_depth - 1 } in
      let stored = recorded code (n + 1) path sz done in
      let f = Option.map (λ f. f fd) io.file_close in
      let closed = call_file f (record stored { io_src = task.io_src }) w'' in
      let keeps = call_file-SameFiles f (record stored { io_src = task.io_src }) w'' in
      let error = recorded_lem code (n + 1) path sz done in
      let back : t''.fib_depth - 1 ≡ task.fib_depth = omega arith in
      (
        closed.res,
        closed.task,
        closed.world,
        rw (evaluate_file_internal, free)
            (ap (file_end io fd path sz task.io_src) (
              loop_stops (file_round s io) n fuel res (in_file s fd task) t t'' w w' w'' rounds last
                bad no_quit enough)),
        keeps.0,
        keeps.1 ∙ error.0 ∙ back,
        keeps.2 ∙ error.1,
      )

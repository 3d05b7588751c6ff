-- ===== src/Tests/Files.antt =====
-- The evaluation of a file of two lines, where a line that does not begin with 7 is undefined.
use e.Base.{
  List, codes, All, ◌<◌, ℕ, ◌≤◌, ◌+◌, ◌≡◌, refl, arith, true, false, Bool, ◌==◌, if◌then◌else◌, ap,
  Option, none, some, Bytes, [], ◌∷◌, ◌*◌, inl,
}
use e.Errors.{e_ok, e_undefword, e_stkunderflow}
use e.Task.{Task, store}
use e.Task.ByteAccess.{set_byte, byte_of, load_byte, store_byte, store_text, load_text}
use e.Stack.{clear, ravail, difference, rpush, rdepth, rpop}
use e.Space.Members.{task_fex, task_ior}
use e.Exception.{throw, throw_then, catch, caught_inside, finish_catch, finish_restored, restore}
use e.Execute.Words.{execute_ret, pop_ip}
use e.Io.{call_handler, io_accept}
use e.Io.File.{io_file_read, call_file}
use e.Io.Pno.{io_pno_start}
use e.Io.Pno.Holds.{IsBuilding}
use e.Compile.{compile_cancel, compile_resume, cancel_resumed}
use e.Evaluate.Quit.{Answered, recover, answer_line, typed}
use e.Evaluate.Quit.Recovers.{answer_line_recovers, code_text}
use e.Messages.{format_exception}
use e.Mem.Number.Loop.{horner}
use e.Io.Pno.Signed.{size_of}
use e.Io.Line.{io_file_readline, readline_loop, read_byte, finish_line, fail_line}
use e.Io.Source.{io_refill, refilled}
use e.Evaluate.{catch_run, execute_thunk}
use e.Evaluate.File.{
  Ended, ends, jumps, FileSetting, file_round, evaluate_refill, evaluate_refill_wrapper,
  refill_world, in_file, evaluate_file_internal,
}
use e.Evaluate.File.Lines.{no_lines, next_line, stored_error, evaluate_file_lem}
use e.Tests.Evaluate.{setting, beginning}
use e.Tests.Io.{io}

abbrev files : FileSetting Bytes
files = record {
  setting = setting;
  fuel = 20;
  fib = λ k. 2000 + k * 136;
  evaluated =
      λ t w. some (ends (if load_byte t.mem t.io_src.buffer == 55 then e_ok else e_undefword) t w);
}

abbrev task_of : Option (Ended Bytes) → Task
task_of none = beginning
task_of (some (ends res t w)) = t
task_of (some (jumps t w)) = t

abbrev world_of : Option (Ended Bytes) → Bytes
world_of none = []
world_of (some (ends res t w)) = w
world_of (some (jumps t w)) = w

-- "7", and "9 x", which is undefined.
abbrev two_lines : Bytes
two_lines = 55 ∷ 10 ∷ 57 ∷ 32 ∷ 120 ∷ 10 ∷ []

abbrev first : Option (Ended Bytes)
first = file_round files io (in_file files 3 beginning) two_lines

abbrev second : Option (Ended Bytes)
second = file_round files io (task_of first) (world_of first)

-- The first line returns, and the second ends with an undefined word.
abbrev is_end : ℕ → Option (Ended Bytes) → Bool
is_end code none = false
is_end code (some (ends res t w)) = res == code
is_end code (some (jumps t w)) = false

end_of :
    (code : ℕ) (o : Option (Ended Bytes))
    → is_end code o ≡ true
    → o ≡ some (ends code (task_of o) (world_of o))
end_of code none e = cc
end_of code (some (ends res t w)) e =
    let same : res ≡ code = ground arith in ap (λ r. some (ends r t w)) same
end_of code (some (jumps t w)) e = cc

rounds_run :
    (is_end e_ok first ≡ true)
    × (is_end e_undefword second ≡ true)
    × ((task_of second).fib_depth ≡ 0 + 1)
unfolding file_round evaluate_refill task_fex catch_run execute_thunk ravail difference
    evaluate_refill_wrapper refill_world io_refill refilled rpush io_file_readline readline_loop
    read_byte finish_line fail_line io_file_read call_file task_ior throw throw_then catch
    caught_inside finish_catch finish_restored restore execute_ret pop_ip rdepth rpop set_byte
    byte_of load_byte store_byte store_text load_text store call_handler io_accept
rounds_run = (refl, refl, refl)

evaluate_file_example :
    (closed : ℕ) × (task' : Task) × (v : Bytes) × (evaluate_file_internal files io 5 3 0 0 beginning
        two_lines
      ≡ some (ends closed task' v))
    × (task'.io_src ≡ beginning.io_src)
    × (task'.fib_depth ≡ 0)
    × (task'.fex ≡ stored_error e_undefword 2 0 0 (task_of second))
evaluate_file_example =
    evaluate_file_lem files io 1 5 3 0 0 beginning (task_of first) (task_of second) two_lines
      (world_of first) (world_of second) (omega arith) (omega arith)
      (next_line (end_of e_ok first rounds_run.0) (inl refl) no_lines) e_undefword
      (end_of e_undefword second rounds_run.1) (omega arith) (omega arith) rounds_run.2

-- A stack underflow while a word without a name is compiled.
abbrev failed : Task
failed = record beginning {
  sp = 90;
  pad = 80;
  compile = record { state = 3; sus_state = 0; s0 = 110; here0 = 480; xt = 480 };
}

recovered :
    IsBuilding (io_pno_start (recover e_stkunderflow failed))
    × ((recover e_stkunderflow failed).here + 136 ≤ (recover e_stkunderflow failed).pad * 8)
    × ((recover e_stkunderflow failed).base ≡ 10)
unfolding recover clear compile_cancel compile_resume cancel_resumed io_pno_start
recovered = ((omega arith, omega arith, omega arith, omega arith, omega arith), omega arith, refl)

answer_line_recovers_example :
    (a : Answered Bytes) × (ds : List ℕ) × (answer_line io e_stkunderflow failed [] ≡ some a)
    × (a.running ≡ true)
    × (a.task.sp ≡ 110)
    × (a.task.compile.state ≡ 0)
    × (a.world
        ≡ typed io
            (code_text e_stkunderflow ds)
            (typed io (format_exception e_stkunderflow) (typed io (codes " EXCEPTION: ") [])))
    × (horner (recover e_stkunderflow failed).base 0 ds ≡ size_of e_stkunderflow)
    × All (λ d. d < (recover e_stkunderflow failed).base) ds
answer_line_recovers_example =
    answer_line_recovers io e_stkunderflow failed [] (omega arith) (omega arith) (omega arith)
      (omega arith) (omega arith) recovered.0 recovered.1 (rw recovered.2 (omega arith))
      (rw recovered.2 (omega arith))

-- ===== src/Tests/Execute.antt =====
-- Threaded code in a small memory: DUP, +, a word that doubles and one that doubles twice.
use e.Base.{ℕ, ◌-◌, ◌≤◌, ◌≡◌, ◌≢◌, refl, arith, List, [], ◌∷◌, none, some, ◌==◌, if◌then◌else◌}
use e.Task.{Task, Memory, store}
use e.Stack.{ravail}
use e.Stack.Contents.{cells, contents, return_contents, IsCoherent}
use e.Exception.{returns}
use e.Builtin.{builtin_dup, builtin_plus, expect_depth, expect_avail}
use e.Builtin.Effects.{dup_effect, plus_effect, dup-Implements, plus-Implements}
use e.Execute.{execute, thread_loop}
use e.Execute.Words.{Code, to_value, execute_ret}
use e.Execute.Meaning.{Word, native, colon, end, next, meaning, needs, bounded, Holds}
use e.Execute.Step.{return_ip}
use e.Execute.Refinement.{IsProgram}
use e.Execute.Total.{fuel_execute}
use e.Execute.Means.{execute_means}
use e.Execute.Failure.{thread_loop_stuck}
use e.Tests.Tasks.{sample}

-- Addresses without the native code, and with DUP at 100 and + at 101.
abbrev no_native : Code
no_native = record {
  deferthunk = 51;
  doesthunk = 52;
  marker = 53;
  threaded = 50;
  threadedthunk = 54;
  userval = 55;
  uservar = 56;
  value = 57;
  variable = 58;
  exit_xt = 8;
  return_thunk = 16;
  native = λ c task user. none;
}

abbrev code : Code
code = record no_native {
  native = λ c task user.
      if c == 100
      then some (builtin_dup no_native task)
      else if c == 101
      then some (builtin_plus no_native task)
      else none;
}

-- The tokens of EXIT, DUP and +, at 7 a word of DUP and +, at 20 one of that word twice.
abbrev cell_at : List ℕ → Memory
cell_at [] a = 0
cell_at (x ∷ xs) a = if a == 0 then x else cell_at xs (a - 1)

abbrev program : Memory
program = cell_at (
    0 ∷ 200 ∷ 8 ∷ 100 ∷ 0 ∷ 101 ∷ 0 ∷ 50 ∷ 0 ∷ 24 ∷ 40 ∷ 8 ∷ 0 ∷ 0 ∷ 0 ∷ 0 ∷ 0 ∷ 0 ∷ 0 ∷ 0 ∷ 50 ∷ 0
    ∷ 56 ∷ 56 ∷ 8 ∷ [])

abbrev start : Task
start = record sample {
  mem = store program 70 5;
  sl = 61;
  s0 = 70;
  sp = 69;
  rl = 80;
  r0 = 99;
  tr0 = 99;
  rp = 99;
}

abbrev double : Word
double = colon 7 (next (native 3 100 dup_effect) (next (native 5 101 plus_effect) end))

abbrev quadruple : Word
quadruple = colon 20 (next double (next double end))

contents-start : contents start ≡ 5 ∷ []
unfolding contents store
contents-start = refl

means_20 : meaning 10 quadruple (contents start) ≡ some (20 ∷ [])
unfolding meaning bounded contents store
means_20 = refl

runs_dup : (task : Task) (user : ℕ) → code.native 100 task user ≡ some (builtin_dup code task)
unfolding builtin_dup expect_depth expect_avail execute_ret
runs_dup task user = refl

runs_plus : (task : Task) (user : ℕ) → code.native 101 task user ≡ some (builtin_plus code task)
unfolding builtin_plus expect_depth execute_ret
runs_plus task user = refl

double-Holds : Holds code 60 start.mem double
unfolding store
double-Holds = (
  omega arith,
  omega arith,
  refl,
  (
    omega arith,
    refl,
    (omega arith, omega arith, refl, omega arith, dup-Implements code 60 100 runs_dup),
    (
      omega arith,
      refl,
      (omega arith, omega arith, refl, omega arith, plus-Implements code 60 101 runs_plus),
      (omega arith, refl),
    ),
  ),
)

quadruple-Holds : Holds code 60 start.mem quadruple
unfolding store
quadruple-Holds = (
  omega arith,
  omega arith,
  refl,
  (omega arith, refl, double-Holds, (omega arith, refl, double-Holds, (omega arith, refl))),
)

is_program : IsProgram code 60 start.mem
unfolding store
is_program = record { distinct = omega arith; exit_low = omega arith; exit_native = omega arith }

room : needs quadruple ≤ 20
unfolding needs
room = omega arith

execute_means_example :
    (t' : Task) × (execute code (fuel_execute quadruple) start 20 ≡ some (returns tt t'))
    × (contents t' ≡ 20 ∷ [])
    × (return_contents t' ≡ return_contents start)
    × (t'.rp ≡ 99)
    × (t'.tr0 ≡ 99)
    × (cells t'.mem 0 60 ≡ cells start.mem 0 60)
    × IsCoherent t'
    × (t'.ip ≡ return_ip 0)
execute_means_example =
    execute_means code 60 start quadruple (20 ∷ []) is_program quadruple-Holds (omega arith)
      (omega arith) room means_20

-- A return stack that is full, in front of DUP.
abbrev full : Task
full = record start { rp = 79; ip = 9 }

is_full : ravail full ≡ 0
unfolding ravail
is_full = refl

thread_loop_stuck_example : thread_loop code 1000 1 full ≡ none
thread_loop_stuck_example =
    thread_loop_stuck code 1000 0 3 full refl is_full at_dup not_threaded (omega arith)
  where
    at_dup : full.mem 9 ≡ to_value 3
    at_dup = unfold store in refl

    not_threaded : full.mem 3 ≢ 50
    not_threaded = unfold store in omega arith

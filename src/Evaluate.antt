-- ===== src/Evaluate.antt =====
-- core/src/kernel/evaluate.c up to e4__evaluate: the words of a text, which are executed, compiled or
-- taken as numbers. A token of this file is code that is given here; the other words are executed by
-- Execute with the fuel of `Setting`.
pub mod Ends
pub mod Returns
pub mod File
pub mod Quit
use mathlib.Core.Option
use e.Base.{
  ℕ, zero, suc, ◌+◌, Bool, true, false, not, ◌||◌, ltb, ◌==◌, if◌then◌else◌, Option, none, some,
  List, [], ◌∷◌, Bytes, length, ◌%◌,
}
use e.Errors.{e_ok, e_undefword, e_componlyword, e_stkoverflow, e_rstkoverflow}
use e.Usize.{has_flag}
use e.Task.{Task, Memory, InputSource}
use e.Task.ByteAccess.{load_byte, load_text}
use e.Mem.Number.{mem_number, f_char_literal, f_neg_prefix, f_base_prefix}
use e.Stack.{avail, push, ravail, rpush}
use e.Dict.{dict_lookup}
use e.Dict.Entry.{Header}
use e.Exception.{Outcome, returns, throws, throw, catch, set_valid}
use e.Compile.{Addresses, compile_cell, compile_literal}
use e.Space.{task_compiling}
use e.Execute.Words.{Code, to_value, to_cell, go_on, execute_ret}
use e.Execute.{Run, and_then, execute}
use e.Io.Source.{io_word, sid_str}

abbrev pub f_immediate : ℕ
f_immediate = 0x01

abbrev pub f_componly : ℕ
f_componly = 0x02

-- What the evaluation of a text depends on: the code and the addresses of the words, what the
-- callbacks of exceptions do, and the fuel of each word.
pub record Setting : Type 0 where
  pub code : Code
  pub addresses : Addresses
  pub callback : ℕ → Task → Outcome Unit
  pub fuel : ℕ

-- The number that all of a word spells.
unfoldable pub whole_number : Task → Bytes → Option ℕ
whole_number task word =
    elim (mem_number word (length word) (task.base % 256)
      (f_char_literal + f_neg_prefix + f_base_prefix)) [
        | none ↦ none
        | some n ↦ if n.taken == length word then some n.out else none
      ]

-- e4__evaluate_compile
unfoldable pub evaluate_compile : Setting → Task → Bytes → Run
evaluate_compile s task word = elim (dict_lookup task word) [
  | [] ↦ elim (whole_number task word) [
    | none ↦ some (throw task e_undefword)
    | some num ↦ some (returns tt (compile_literal s.addresses task num))
  ]
  | header ∷ _ ↦ elim (has_flag header.flags f_immediate) [
    | true ↦ execute s.code s.fuel task (to_cell header.xt)
    | false ↦ some (returns tt (compile_cell task header.xt))
  ]
]

-- e4__evaluate_interpret
unfoldable pub evaluate_interpret : Setting → Task → Bytes → Run
evaluate_interpret s task word = elim (dict_lookup task word) [
  | [] ↦ elim (whole_number task word) [
    | none ↦ some (throw task e_undefword)
    | some num ↦ elim (avail task == 0) [
      | true ↦ some (throw task e_stkoverflow)
      | false ↦ some (returns tt (push task num))
    ]
  ]
  | header ∷ _ ↦
      let refused =
        if has_flag header.flags f_componly then throw task e_componlyword else returns tt task in
      and_then (some refused) (λ t. execute s.code s.fuel t (to_cell header.xt))
]

-- The word that e4__io_word leaves at HERE.
unfoldable pub word_at_here : Task → Bytes
word_at_here task = load_text task.mem (task.here + 1) (load_byte task.mem task.here)

unfoldable pub evaluate_word : Setting → Task → Bytes → Run
evaluate_word s task [] = some (returns tt task)
evaluate_word s task (c ∷ cs) =
    if task_compiling task
    then evaluate_compile s task (c ∷ cs)
    else evaluate_interpret s task (c ∷ cs)

-- The loop of e4__evaluate_internal, with fuel for its rounds.
unfoldable pub evaluate_loop : Setting → ℕ → Task → Run
evaluate_loop s zero task = none
evaluate_loop s (suc fuel) task = elim (ltb task.io_src.to_in task.io_src.length) [
  | true ↦
      let read = io_word task 32 in
      and_then (evaluate_word s read (word_at_here read)) (evaluate_loop s fuel)
  | false ↦ some (returns tt task)
]

-- e4__execute of a token that stands in a constant of this file, with code that does `body`.
unfoldable pub execute_thunk : (Task → Run) → Task → Run
execute_thunk body task =
    let ip_valid = not (task.ip == 0) in
    let pushed = rpush task (if ip_valid then to_value (task.ip + 1) else 0) in
    elim (ravail task == 0) [
      | true ↦ some (throw task e_rstkoverflow)
      | false ↦
          and_then (body pushed)
            (λ t. some (returns tt (if ip_valid then t else record t { ip = 0 })))
    ]

-- e4__exception_catch of code that may not end.
unfoldable pub catch_run : (ℕ → Task → Outcome Unit) → (Task → Run) → Task → Option (Outcome ℕ)
catch_run callback word task = elim (word (set_valid true task)) [
  | none ↦ none
  | some o ↦ some (catch callback (λ t. o) task)
]

-- The end of e4__evaluate_internal after its loop, and of e4__evaluate_wrapper after the call.
abbrev pub with_ok : Run → Option (Outcome ℕ)
with_ok none = none
with_ok (some (returns _ task)) = some (returns e_ok task)
with_ok (some (throws task)) = some (throws task)

abbrev pub then_ret : Code → Option (Outcome ℕ) → Run
then_ret code none = none
then_ret code (some (returns _ task)) = some (execute_ret code task)
then_ret code (some (throws task)) = some (throws task)

-- e4__evaluate_internal and e4__evaluate_wrapper, with fuel for their calls and for the rounds of
-- the loop.
unfoldable mutual
  pub evaluate_internal : Setting → ℕ → ℕ → Bool → Task → Option (Outcome ℕ)
  evaluate_internal s zero rounds force_thunk task = none
  evaluate_internal s (suc calls) rounds force_thunk task =
      elim (not task.exception.valid || force_thunk) [
        | true ↦ catch_run s.callback (execute_thunk (evaluate_wrapper s calls rounds)) task
        | false ↦ with_ok (evaluate_loop s rounds task)
      ]

  pub evaluate_wrapper : Setting → ℕ → ℕ → Task → Run
  evaluate_wrapper s zero rounds task = none
  evaluate_wrapper s (suc calls) rounds task =
      then_ret s.code (evaluate_internal s calls rounds false task)

-- strlen of the text at an address, which ends at the first zero byte, with fuel for its bytes.
unfoldable pub strlen : ℕ → Memory → ℕ → Option ℕ
strlen zero m a = none
strlen (suc fuel) m a =
    let rest = Option.map suc (strlen fuel m (a + 1)) in if load_byte m a == 0 then some 0 else rest

-- e4__evaluate puts the old input source back where it returns.
abbrev pub source_back : InputSource → Option (Outcome ℕ) → Option (Outcome ℕ)
source_back old none = none
source_back old (some (returns res task)) = some (returns res (record task { io_src = old }))
source_back old (some (throws task)) = some (throws task)

abbrev pub set_source : ℕ → ℕ → Task → Task
set_source buf n task = record task {
  io_src = record { buffer = buf; sid = sid_str; to_in = 0; length = n; sz = n };
}

-- e4__evaluate
unfoldable pub evaluate : Setting → ℕ → Task → ℕ → ℕ → Option (Outcome ℕ)
evaluate s fuel task buf sz =
    let size = if sz == sid_str then strlen fuel task.mem buf else some sz in
    elim size [
      | none ↦ none
      | some n ↦ source_back task.io_src (evaluate_internal s 3 fuel false (set_source buf n task))
    ]

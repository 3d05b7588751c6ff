-- ===== src/Execute.antt =====
-- core/src/kernel/execute.c: execution of a token, and the interpreter of threaded code. Code that
-- the rest of the program or its user supplies is an argument. The interpreter has fuel, and `none`
-- says that it is used up.
pub mod Words
pub mod Meaning
pub mod Leaf
pub mod Step
pub mod Thread
pub mod Nest
pub mod Refinement
pub mod Total
pub mod Means
pub mod Failure
use e.Base.{
  ℕ, zero, suc, ◌+◌, ◌-◌, Bool, true, false, not, ltb, ◌==◌, if◌then◌else◌, Option, none, some,
}
use e.Errors.{e_stkoverflow, e_rstkoverflow}
use e.Task.{Task, store}
use e.Stack.{avail, push, ravail, rpush}
use e.Exception.{Outcome, returns, throws, throw}
use e.Execute.Words.{
  Code, to_value, to_cell, go_on, execute_ret, execute_userval, execute_uservar, execute_value,
  execute_variable, execute_marker, enter_thread, nest_thread, leave_thread, unwind,
}

abbrev pub Run : Type 0
Run = Option (Outcome Unit)

-- A run after which other code runs.
abbrev pub and_then : Run → (Task → Run) → Run
and_then none k = none
and_then (some (returns _ task)) k = k task
and_then (some (throws task)) k = some (throws task)

-- The kinds of code that a token can have.
pub data Kind : Type 0 where
  deferthunk doesthunk threaded threadedthunk other : Kind

unfoldable pub kind_of : Code → ℕ → Kind
kind_of code c =
    if c == code.threaded
    then threaded
    else if c == code.doesthunk
    then doesthunk
    else if c == code.deferthunk
    then deferthunk
    else if c == code.threadedthunk
    then threadedthunk
    else other

-- The code that executes no other word of threaded code itself.
unfoldable pub run_other : Code → ℕ → Task → ℕ → Run
run_other code c task user =
    if c == code.marker
    then some (execute_marker code task user)
    else if c == code.userval
    then some (execute_userval code task user)
    else if c == code.uservar
    then execute_uservar code task user
    else if c == code.value
    then some (execute_value code task user)
    else if c == code.variable
    then some (execute_variable code task user)
    else code.native c task user

-- The overflow of the return stack in a nested thread: all threads but the first are left.
unfoldable pub overflow_nested : ℕ → Task → Outcome Unit
overflow_nested depth task =
    go_on (throw task e_rstkoverflow) (λ t. returns tt (unwind depth (record t { rp = t.tr0 })))

-- e4__execute, the call through its code pointer, e4__execute_threaded and its loop, at a number of
-- nested threads.
unfoldable mutual
  pub execute : Code → ℕ → Task → ℕ → Run
  execute code zero task xt = none
  execute code (suc fuel) task xt =
      let ip_valid = not (task.ip == 0) in
      let pushed = rpush task (if ip_valid then to_value (task.ip + 1) else 0) in
      elim (ravail task == 0) [
        | true ↦ some (throw task e_rstkoverflow)
        | false ↦
            and_then (call code fuel (pushed.mem xt) pushed (xt + 1))
              (λ t. some (returns tt (if ip_valid then t else record t { ip = 0 })))
      ]

  pub call : Code → ℕ → ℕ → Task → ℕ → Run
  call code zero c task user = none
  call code (suc fuel) c task user = elim (kind_of code c) [
    | threaded ↦ execute_threaded code fuel task user
    | doesthunk ↦ elim (avail task == 0) [
      | true ↦ some (throw task e_stkoverflow)
      | false ↦
          let t = push task (to_value (user + 1)) in
          execute_threaded code fuel t (to_cell (t.mem user) - 1)
    ]
    | deferthunk ↦
        and_then (execute code fuel task (to_cell (task.mem user))) (λ t. some (execute_ret code t))
    | threadedthunk ↦ execute_threaded code fuel task (to_cell (task.mem user) - 1)
    | other ↦ run_other code c task user
  ]

  pub execute_threaded : Code → ℕ → Task → ℕ → Run
  execute_threaded code zero task user = none
  execute_threaded code (suc fuel) task user = elim (ravail task == 0) [
    | true ↦ some (go_on (throw task e_rstkoverflow) (execute_ret code))
    | false ↦
        and_then (thread_loop code fuel 1 (enter_thread task user))
          (λ t. some (leave_thread code t))
  ]

  pub thread_loop : Code → ℕ → ℕ → Task → Run
  thread_loop code zero depth task = none
  thread_loop code (suc fuel) zero task = some (returns tt task)
  thread_loop code (suc fuel) (suc depth) task =
      elim (task.mem (to_cell (task.mem task.ip)) == code.threaded) [
        | true ↦ elim (ltb (ravail task) 2) [
          | true ↦ some (overflow_nested depth task)
          | false ↦ thread_loop code fuel (suc (suc depth)) (nest_thread task)
        ]
        | false ↦ elim (task.mem task.ip == code.exit_xt) [
          | true ↦ elim (depth == 0) [
            | true ↦ some (returns tt task)
            | false ↦ and_then (some (leave_thread code task)) (thread_loop code fuel depth)
          ]
          | false ↦
              and_then (execute code fuel task (to_cell (task.mem task.ip)))
                (thread_loop code fuel (suc depth))
        ]
      ]

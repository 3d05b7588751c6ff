-- ===== src/Execute/Words.antt =====
-- The parts of core/src/kernel/execute.c that do not execute other words: returning, the code of
-- words with data, and the return stack of a thread.
use e.Base.{
  ℕ, zero, suc, ◌+◌, ◌*◌, ◌/◌, ltb, ◌==◌, if◌then◌else◌, Option, none, some, List, [], ◌∷◌,
}
use e.Errors.{e_stkoverflow, e_rstkunderflow, e_rstkimbalance}
use e.Task.{Task}
use e.Mem.Layout.{cell_sz}
use e.Stack.{avail, push, rdepth, rpop, rpush}
use e.Exception.{Outcome, returns, throws, throw}
use e.Dict.Entry.{Header}
use e.Space.Members.{task_uservar}

-- What a cell holds for a pointer to a cell, and the cell that such a value points to.
abbrev pub to_value : ℕ → ℕ
to_value p = p * cell_sz

abbrev pub to_cell : ℕ → ℕ
to_cell v = v / cell_sz

-- Code after which other code runs.
abbrev pub go_on : Outcome Unit → (Task → Outcome Unit) → Outcome Unit
go_on (returns _ task) k = k task
go_on (throws task) k = throws task

-- Addresses of the code pointers of core/src/kernel/execute.c, of the token of EXIT and of the
-- thunk that returns, and what the other code does with its argument; `none` is code that does not
-- end.
pub record Code : Type 0 where
  pub deferthunk : ℕ
  pub doesthunk : ℕ
  pub marker : ℕ
  pub threaded : ℕ
  pub threadedthunk : ℕ
  pub userval : ℕ
  pub uservar : ℕ
  pub value : ℕ
  pub variable : ℕ
  pub exit_xt : ℕ
  pub return_thunk : ℕ
  pub native : ℕ → Task → ℕ → Option (Outcome Unit)

-- `task->ip = e4__stack_rpop(task)`
unfoldable pub pop_ip : Task → Task
pop_ip task = record (rpop task).task { ip = to_cell (rpop task).cell }

-- e4__execute_ret
unfoldable pub execute_ret : Code → Task → Outcome Unit
execute_ret code task =
    if ltb (rdepth task) 1
    then go_on (throw task e_rstkunderflow) (λ t. returns tt (pop_ip (rpush t code.return_thunk)))
    else returns tt (pop_ip task)

-- The words that push one value and return: execute.c tests that there is room.
unfoldable pub push_and_ret : Code → Task → ℕ → Outcome Unit
push_and_ret code task v =
    if avail task == 0 then throw task e_stkoverflow else execute_ret code (push task v)

-- e4__execute_userval
unfoldable pub execute_userval : Code → Task → ℕ → Outcome Unit
execute_userval code task user = push_and_ret code task (task.mem user)

-- e4__execute_uservar; `none` is an offset that is not one of a user variable.
unfoldable pub execute_uservar : Code → Task → ℕ → Option (Outcome Unit)
execute_uservar code task user = elim (task_uservar task (task.mem user)) [
  | none ↦ if avail task == 0 then some (throw task e_stkoverflow) else none
  | some v ↦ some (push_and_ret code task v)
]

-- e4__execute_value
unfoldable pub execute_value : Code → Task → ℕ → Outcome Unit
execute_value code task user = push_and_ret code task (task.mem (user + 1))

-- e4__execute_variable
unfoldable pub execute_variable : Code → Task → ℕ → Outcome Unit
execute_variable code task user = push_and_ret code task (to_value (user + 1))

-- The entries under the header at an address.
unfoldable pub link_of : List Header → ℕ → List Header
link_of [] address = []
link_of (h ∷ dict) address =
    let further = link_of dict address in if h.address == address then dict else further

-- e4__execute_marker
unfoldable pub execute_marker : Code → Task → ℕ → Outcome Unit
execute_marker code task user =
    let header = task.mem user in
    execute_ret code (record task { dict = link_of task.dict header; here = header })

-- What e4__execute_threaded does first, and the nested thread at a token: the base of the return
-- stack of the thread that is left is stored, in a nested one with the return address below it.
unfoldable pub enter_thread : Task → ℕ → Task
enter_thread task user =
    let t = rpush task (to_value task.tr0) in record t { tr0 = t.rp; ip = user + 1 }

unfoldable pub nest_thread : Task → Task
nest_thread task =
    let t = rpush (rpush task (to_value (task.ip + 1))) (to_value task.tr0) in
    record t { tr0 = t.rp; ip = to_cell (t.mem task.ip) + 2 }

-- `task->tr0 = e4__stack_rpop(task)`
unfoldable pub pop_base : Task → Task
pop_base task = record (rpop task).task { tr0 = to_cell (rpop task).cell }

-- The end of a thread: the check of its return stack, and the return.
unfoldable pub leave_thread : Code → Task → Outcome Unit
leave_thread code task =
    let balanced =
      if task.rp == task.tr0
      then returns tt task
      else go_on (throw task e_rstkimbalance) (λ t. returns tt (record t { rp = t.tr0 })) in
    go_on balanced (λ t. execute_ret code (pop_base t))

-- Leaving `depth` nested threads at once when the return stack overflows.
unfoldable pub unwind : ℕ → Task → Task
unwind zero task = task
unwind (suc depth) task = let t = pop_base task in unwind depth (record t { rp = t.tr0 })

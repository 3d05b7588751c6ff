-- ===== src/Tests/Space.antt =====
-- A task in a buffer of 4 KiB, and allotting in a small dictionary space.
use e.Base.{◌-◌, ◌/◌, ◌^◌, ◌≤◌, ◌<◌, ◌≡◌, arith, some, []}
use e.Task.{Task}
use e.Mem.Layout.{cell_sz}
use e.Stack.{avail, ravail}
use e.Stack.Contents.{contents, return_contents, IsCoherent}
use e.Compile.States.{NoCompilation}
use e.Space.{sizeof_task, task_min_sz, task_create, task_allot, task_unused}
use e.Space.Allot.{IsInSpace, After, task_allot-IsInSpace}
use e.Space.Create.{IsLaidOut, NoException, task_create_lem}
use e.Tests.Tasks.{sample}

abbrev small_space : Task
small_space = record sample { here = 96; pad = 40 }

small_space-IsInSpace : IsInSpace 1 80 small_space
small_space-IsInSpace = omega arith

task_create_example :
    (task : Task) × (task_create 200 [] (λ x. 1) 100 4100 ≡ some task)
    × IsCoherent task
    × (contents task ≡ [])
    × (return_contents task ≡ [])
    × (12 ≤ avail task)
    × (12 ≤ ravail task)
    × IsLaidOut 200 100 (4100 / cell_sz) task
    × NoCompilation task
    × NoException task
    × (task.dict ≡ [])
    × (task.base ≡ 10)
unfolding sizeof_task
task_create_example =
    task_create_lem 200 [] (λ x. 1) 100 4100 (omega arith) (omega arith) (omega arith) (omega arith)

-- With the jmp_buf of x86-64 the struct does not fit the smallest buffer.
struct_too_large : task_min_sz < sizeof_task 200
unfolding sizeof_task
struct_too_large = omega arith

task_allot-IsInSpace_example : After (IsInSpace 1 80) (task_allot 1 80 small_space (2 ^ 64 - 24))
task_allot-IsInSpace_example =
    task_allot-IsInSpace 1 80 small_space (2 ^ 64 - 24) small_space-IsInSpace

fits : 64 ≤ task_unused small_space
unfolding task_unused
fits = omega arith

too_large : task_unused small_space < 256
unfolding task_unused
too_large = omega arith

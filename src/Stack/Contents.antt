-- ===== src/Stack/Contents.antt =====
-- A stack as the list of its cells, the top first, and what pushing and popping do to the list.
use e.Base.{
  ℕ, zero, suc, ◌+◌, ◌-◌, ◌≤◌, ◌<◌, ◌≡◌, ◌≢◌, refl, arith, ap, sym, ◌∙◌, List, [], ◌∷◌, length,
}
use e.Task.{Task, Memory, store}
use e.Stack.{push, pop, rpush, rpop, depth, avail, rdepth, ravail, difference_lem}

-- `n` cells from cell `a` on.
abbrev pub cells : Memory → ℕ → ℕ → List ℕ
cells m a zero = []
cells m a (suc n) = m a ∷ cells m (a + 1) n

-- The two stacks as lists.
unfoldable pub contents : Task → List ℕ
contents task = cells task.mem (task.sp + 1) (task.s0 - task.sp)

unfoldable pub return_contents : Task → List ℕ
return_contents task = cells task.mem (task.rp + 1) (task.tr0 - task.rp)

-- The order of a task's two stacks in memory: parameter stack below the return stack, pointers
-- within the bounds of each, no stack at cell 0.
abbrev pub IsCoherent : Task → Type 0
IsCoherent task =
    (1 ≤ task.sl)
    × (task.sl ≤ task.sp + 1)
    × (task.sp ≤ task.s0)
    × (task.s0 < task.rl)
    × (task.rl ≤ task.rp + 1)
    × (task.rp ≤ task.tr0)

-- The depths and the room of coherent stacks do not wrap.
pub depth_lem : (task : Task) → task.sp ≤ task.s0 → depth task ≡ task.s0 - task.sp
unfolding depth
depth_lem task le = difference_lem task.s0 task.sp le

pub avail_lem : (task : Task) → task.sl ≤ task.sp + 1 → avail task ≡ task.sp + 1 - task.sl
unfolding avail
avail_lem task le = difference_lem (task.sp + 1) task.sl le

pub rdepth_lem : (task : Task) → task.rp ≤ task.tr0 → rdepth task ≡ task.tr0 - task.rp
unfolding rdepth
rdepth_lem task le = difference_lem task.tr0 task.rp le

pub ravail_lem : (task : Task) → task.rl ≤ task.rp + 1 → ravail task ≡ task.rp + 1 - task.rl
unfolding ravail
ravail_lem task le = difference_lem (task.rp + 1) task.rl le

pub store_same : (m : Memory) (a v : ℕ) → store m a v a ≡ v
unfolding store
store_same m a v = ground arith

pub store_other : (m : Memory) (a v x : ℕ) → x ≢ a → store m a v x ≡ m x
unfolding store
store_other m a v x ne = ground arith

-- A store below or above a range of cells leaves it.
pub cells-store_below :
    (m : Memory) (a v from n : ℕ) → a < from → cells (store m a v) from n ≡ cells m from n
cells-store_below m a v from zero h = refl
cells-store_below m a v from (suc n) h =
    rw (store_other m a v from (omega arith), cells-store_below m a v (from + 1) n (omega arith))

pub cells-store_above :
    (m : Memory) (a v from n : ℕ) → from + n ≤ a → cells (store m a v) from n ≡ cells m from n
cells-store_above m a v from zero h = refl
cells-store_above m a v from (suc n) h =
    rw (store_other m a v from (omega arith), cells-store_above m a v (from + 1) n (omega arith))

pub length-cells : (m : Memory) (a n : ℕ) → length (cells m a n) ≡ n
length-cells m a zero = refl
length-cells m a (suc n) = ap suc (length-cells m (a + 1) n)

-- A range that is not empty by its first cell and the rest.
pub cells-suc : (m : Memory) (a n k b : ℕ) → n ≡ k + 1 → b ≡ a + 1 → cells m a n ≡ m a ∷ cells m b k
cells-suc m a zero k b e e' = absurd (omega arith)
cells-suc m a (suc n) k b e e' = let same : n ≡ k = omega arith in rw (same, e')

-- The cells after a store just below the stack.
grown :
    (m : Memory) (sp s0 v : ℕ)
    → 1 ≤ sp
    → sp ≤ s0
    → cells (store m sp v) (sp - 1 + 1) (s0 - (sp - 1)) ≡ v ∷ cells m (sp + 1) (s0 - sp)
grown m sp s0 v low high =
    let same : sp - 1 + 1 ≡ sp = omega arith in
    rw (
      same,
      cells-suc (store m sp v) sp (s0 - (sp - 1)) (s0 - sp) (sp + 1) (omega arith) refl,
      store_same m sp v,
      cells-store_below m sp v (sp + 1) (s0 - sp) (omega arith),
    )

-- In a task whose stacks are in order, where a cell is left on the parameter stack, pushing
-- puts the value in front of its contents, keeps the return stack and the order of the stacks,
-- and popping gives the value and the contents back.
pub pop-push :
    (task : Task) (v : ℕ)
    → IsCoherent task
    → avail task ≢ 0
    → (contents (push task v) ≡ v ∷ contents task)
      × (return_contents (push task v) ≡ return_contents task)
      × IsCoherent (push task v)
      × ((pop (push task v)).cell ≡ v)
      × (contents (pop (push task v)).task ≡ contents task)
unfolding push pop contents return_contents
pop-push task v ok room =
    let free : avail task ≡ task.sp + 1 - task.sl = avail_lem task ok.1 in
    let same : task.sp - 1 + 1 ≡ task.sp = omega arith in
    (
      grown task.mem task.sp task.s0 v (omega arith) (omega arith),
      cells-store_below task.mem task.sp v (task.rp + 1) (task.tr0 - task.rp) (omega arith),
      omega arith,
      rw same (store_same task.mem task.sp v),
      rw same
          (cells-store_below task.mem task.sp v (task.sp + 1) (task.s0 - task.sp) (omega arith)),
    )

-- In a task whose stacks are in order, where a cell is left on the return stack, pushing on it
-- puts the value in front of its contents, keeps the parameter stack and the order of the
-- stacks, and popping gives the value and the contents back.
pub rpop-rpush :
    (task : Task) (v : ℕ)
    → IsCoherent task
    → ravail task ≢ 0
    → (return_contents (rpush task v) ≡ v ∷ return_contents task)
      × (contents (rpush task v) ≡ contents task)
      × IsCoherent (rpush task v)
      × ((rpop (rpush task v)).cell ≡ v)
      × (return_contents (rpop (rpush task v)).task ≡ return_contents task)
unfolding rpush rpop contents return_contents
rpop-rpush task v ok room =
    let free : ravail task ≡ task.rp + 1 - task.rl = ravail_lem task ok.4 in
    let same : task.rp - 1 + 1 ≡ task.rp = omega arith in
    (
      grown task.mem task.rp task.tr0 v (omega arith) (omega arith),
      cells-store_above task.mem task.rp v (task.sp + 1) (task.s0 - task.sp) (omega arith),
      omega arith,
      rw same (store_same task.mem task.rp v),
      rw same
          (cells-store_below task.mem task.rp v (task.rp + 1) (task.tr0 - task.rp) (omega arith)),
    )

-- In a task whose stacks are in order, the depths are the lengths of the two lists.
pub length-contents :
    (task : Task)
    → IsCoherent task
    → (length (contents task) ≡ depth task) × (length (return_contents task) ≡ rdepth task)
unfolding contents return_contents
length-contents task ok = (
  length-cells task.mem _ _ ∙ sym (depth_lem task ok.2),
  length-cells task.mem _ _ ∙ sym (rdepth_lem task ok.5),
)

-- In a task whose stacks are in order, popping a parameter stack that is not empty gives the
-- first of its contents and leaves the others, the return stack and the order of the stacks.
pub pop-contents :
    (task : Task)
    → IsCoherent task
    → depth task ≢ 0
    → (contents task ≡ (pop task).cell ∷ contents (pop task).task)
      × (return_contents (pop task).task ≡ return_contents task)
      × IsCoherent (pop task).task
unfolding pop contents return_contents
pop-contents task ok full =
    let deep : depth task ≡ task.s0 - task.sp = depth_lem task ok.2 in
    (
      cells-suc task.mem (task.sp + 1) (task.s0 - task.sp) (task.s0 - (task.sp + 1)) _ (omega arith)
          refl,
      refl,
      omega arith,
    )

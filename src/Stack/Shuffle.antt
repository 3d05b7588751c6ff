-- ===== src/Stack/Shuffle.antt =====
-- DUP, OVER, SWAP, ROT, TUCK and PICK as functions on the list of a stack's cells.
use e.Base.{
  ℕ, zero, suc, ◌+◌, ◌-◌, ◌≤◌, ◌<◌, ◌≡◌, ◌≢◌, refl, arith, ap, List, [], ◌∷◌, get_or, ◌∙◌, sym,
}
use e.Task.{Task, Memory, store}
use e.Stack.{push, dup, over, swap, rot, tuck, pick, depth, avail}
use e.Stack.Contents.{
  cells, contents, return_contents, IsCoherent, cells-suc, cells-store_below, store_same,
  store_other, pop-push, depth_lem,
}

-- What Forth says of the words: the effects on the list, the top first.
abbrev pub dup_cells : List ℕ → List ℕ
dup_cells (a ∷ xs) = a ∷ a ∷ xs
dup_cells [] = []

abbrev pub over_cells : List ℕ → List ℕ
over_cells (b ∷ a ∷ xs) = a ∷ b ∷ a ∷ xs
over_cells (b ∷ []) = b ∷ []
over_cells [] = []

abbrev pub swap_cells : List ℕ → List ℕ
swap_cells (b ∷ a ∷ xs) = a ∷ b ∷ xs
swap_cells (b ∷ []) = b ∷ []
swap_cells [] = []

abbrev pub tuck_cells : List ℕ → List ℕ
tuck_cells (b ∷ a ∷ xs) = b ∷ a ∷ b ∷ xs
tuck_cells (b ∷ []) = b ∷ []
tuck_cells [] = []

abbrev pub rot_cells : List ℕ → List ℕ
rot_cells (c ∷ b ∷ a ∷ xs) = a ∷ c ∷ b ∷ xs
rot_cells (c ∷ b ∷ []) = c ∷ b ∷ []
rot_cells (c ∷ []) = c ∷ []
rot_cells [] = []

-- The top cells of a stack that is deep enough.
two_cells :
    (m : Memory) (sp n : ℕ)
    → 2 ≤ n
    → cells m (sp + 1) n ≡ m (sp + 1) ∷ m (sp + 2) ∷ cells m (sp + 3) (n - 2)
two_cells m sp n deep =
    cells-suc m (sp + 1) n (n - 1) (sp + 2) (omega arith) (omega arith)
    ∙ ap (λ xs. m (sp + 1) ∷ xs)
        (cells-suc m (sp + 2) (n - 1) (n - 2) (sp + 3) (omega arith) (omega arith))

three_cells :
    (m : Memory) (sp n : ℕ)
    → 3 ≤ n
    → cells m (sp + 1) n ≡ m (sp + 1) ∷ m (sp + 2) ∷ m (sp + 3) ∷ cells m (sp + 4) (n - 3)
three_cells m sp n deep =
    two_cells m sp n (omega arith)
    ∙ ap (λ xs. m (sp + 1) ∷ m (sp + 2) ∷ xs)
        (cells-suc m (sp + 3) (n - 2) (n - 3) (sp + 4) (omega arith) (omega arith))

swap_cells_lem :
    (m : Memory) (sp n : ℕ)
    → 2 ≤ n
    → cells (store (store m (sp + 2) (m (sp + 1))) (sp + 1) (m (sp + 2))) (sp + 1) n
      ≡ swap_cells (cells m (sp + 1) n)
swap_cells_lem m sp n deep =
    let m' = store m (sp + 2) (m (sp + 1)) in
    rw (
      two_cells (store m' (sp + 1) (m (sp + 2))) sp n deep,
      two_cells m sp n deep,
      store_same m' (sp + 1) (m (sp + 2)),
      store_other m' (sp + 1) (m (sp + 2)) (sp + 2) (omega arith),
      store_same m (sp + 2) (m (sp + 1)),
      cells-store_below m' (sp + 1) (m (sp + 2)) (sp + 3) (n - 2) (omega arith),
      cells-store_below m (sp + 2) (m (sp + 1)) (sp + 3) (n - 2) (omega arith),
    )

rot_cells_lem :
    (m : Memory) (sp n : ℕ)
    → 3 ≤ n
    → cells
        (store (store (store m (sp + 3) (m (sp + 2))) (sp + 2) (m (sp + 1))) (sp + 1) (m (sp + 3)))
        (sp + 1)
        n
      ≡ rot_cells (cells m (sp + 1) n)
rot_cells_lem m sp n deep =
    let m' = store m (sp + 3) (m (sp + 2)) in
    let m'' = store m' (sp + 2) (m (sp + 1)) in
    rw (
      three_cells (store m'' (sp + 1) (m (sp + 3))) sp n deep,
      three_cells m sp n deep,
      store_same m'' (sp + 1) (m (sp + 3)),
      store_other m'' (sp + 1) (m (sp + 3)) (sp + 2) (omega arith),
      store_other m'' (sp + 1) (m (sp + 3)) (sp + 3) (omega arith),
      store_same m' (sp + 2) (m (sp + 1)),
      store_other m' (sp + 2) (m (sp + 1)) (sp + 3) (omega arith),
      store_same m (sp + 3) (m (sp + 2)),
      cells-store_below m'' (sp + 1) (m (sp + 3)) (sp + 4) (n - 3) (omega arith),
      cells-store_below m' (sp + 2) (m (sp + 1)) (sp + 4) (n - 3) (omega arith),
      cells-store_below m (sp + 3) (m (sp + 2)) (sp + 4) (n - 3) (omega arith),
    )

-- An operation does to a task's parameter stack what a function does to the list of its cells; it
-- keeps the return stack and the order of the stacks.
abbrev pub Refines : (Task → Task) → (List ℕ → List ℕ) → Task → Type 0
Refines op effect task =
    (contents (op task) ≡ effect (contents task))
    × (return_contents (op task) ≡ return_contents task)
    × IsCoherent (op task)

swap_lem : (task : Task) → IsCoherent task → 2 ≤ depth task → Refines swap swap_cells task
unfolding swap contents return_contents
swap_lem task ok deep =
    let deeper : 2 ≤ task.s0 - task.sp = omega (arith, depth_lem task ok.2) in
    let m = store task.mem (task.sp + 2) (task.mem (task.sp + 1)) in
    (
      swap_cells_lem task.mem task.sp (task.s0 - task.sp) deeper,
      cells-store_below m (task.sp + 1) (task.mem (task.sp + 2)) (task.rp + 1) _ (omega arith)
          ∙ cells-store_below task.mem (task.sp + 2) (task.mem (task.sp + 1)) (task.rp + 1) _
              (omega arith),
      ok,
    )

-- In a task whose stacks are in order, on three cells or more, ROT brings the third cell to the
-- top and keeps the other cells, the return stack and the order of the stacks.
pub rot_lem : (task : Task) → IsCoherent task → 3 ≤ depth task → Refines rot rot_cells task
unfolding rot contents return_contents
rot_lem task ok deep =
    let deeper : 3 ≤ task.s0 - task.sp = omega (arith, depth_lem task ok.2) in
    let m = store task.mem (task.sp + 3) (task.mem (task.sp + 2)) in
    let m' = store m (task.sp + 2) (m (task.sp + 1)) in
    let read : m (task.sp + 1) ≡ task.mem (task.sp + 1) =
      store_other task.mem (task.sp + 3) (task.mem (task.sp + 2)) (task.sp + 1) (omega arith) in
    (
      rw read (rot_cells_lem task.mem task.sp (task.s0 - task.sp) deeper),
      cells-store_below m' (task.sp + 1) (task.mem (task.sp + 3)) (task.rp + 1) _ (omega arith)
          ∙ cells-store_below m (task.sp + 2) (m (task.sp + 1)) (task.rp + 1) _ (omega arith)
          ∙ cells-store_below task.mem (task.sp + 3) (task.mem (task.sp + 2)) (task.rp + 1) _
              (omega arith),
      ok,
    )

module _ (task : Task) (ok : IsCoherent task) (room : avail task ≢ 0) where
  dup_lem : 1 ≤ depth task → Refines dup dup_cells task
  unfolding dup push contents
  dup_lem deep =
      let deeper : 1 ≤ task.s0 - task.sp = omega (arith, depth_lem task ok.2) in
      let whole =
        cells-suc task.mem (task.sp + 1) (task.s0 - task.sp) (task.s0 - task.sp - 1) _ (omega arith)
          refl in
      let pushed = pop-push task (task.mem (task.sp + 1)) ok room in
      (pushed.0 ∙ rw whole refl, pushed.1, pushed.2)

  over_lem : 2 ≤ depth task → Refines over over_cells task
  unfolding over push contents
  over_lem deep =
      let deeper : 2 ≤ task.s0 - task.sp = omega (arith, depth_lem task ok.2) in
      let whole = two_cells task.mem task.sp (task.s0 - task.sp) deeper in
      let pushed = pop-push task (task.mem (task.sp + 2)) ok room in
      (pushed.0 ∙ rw whole refl, pushed.1, pushed.2)

over-swap_cells : (xs : List ℕ) → over_cells (swap_cells xs) ≡ tuck_cells xs
over-swap_cells [] = refl
over-swap_cells (b ∷ []) = refl
over-swap_cells (b ∷ a ∷ xs) = refl

-- In a task whose stacks are in order, on two cells or more, with a cell left, DUP, OVER, SWAP
-- and TUCK do to the list of the cells what Forth says, and keep the return stack and the order
-- of the stacks.
pub shuffles :
    (task : Task)
    → IsCoherent task
    → 2 ≤ depth task
    → avail task ≢ 0
    → Refines dup dup_cells task
      × Refines over over_cells task
      × Refines swap swap_cells task
      × Refines tuck tuck_cells task
unfolding tuck swap avail depth
shuffles task ok deep room =
    let one : 1 ≤ depth task = omega arith in
    let swapped = swap_lem task ok deep in
    let tucked = over_lem (swap task) swapped.2 room deep in
    (
      dup_lem task ok room one,
      over_lem task ok room deep,
      swapped,
      (
        tucked.0 ∙ ap over_cells swapped.0 ∙ over-swap_cells (contents task),
        tucked.1 ∙ swapped.1,
        tucked.2,
      ),
    )

pub get_or-cells : (m : Memory) (a n i d : ℕ) → i < n → get_or (cells m a n) i d ≡ m (a + i)
get_or-cells m a zero i d h = absurd (omega arith)
get_or-cells m a (suc n) zero d h = ap m (omega arith)
get_or-cells m a (suc n) (suc i) d h =
    get_or-cells m (a + 1) n i d (omega arith) ∙ ap m (omega arith)

-- In a task whose stacks are in order, PICK reads the cell at its index, counted from the top, when
-- the stack is that deep.
pub pick_lem :
    (task : Task) (u : ℕ)
    → IsCoherent task
    → u < depth task
    → pick task u ≡ get_or (contents task) u 0
unfolding pick contents
pick_lem task u ok deep =
    let deeper : u < task.s0 - task.sp = omega (arith, depth_lem task ok.2) in
    ap task.mem (omega arith)
    ∙ sym (get_or-cells task.mem (task.sp + 1) (task.s0 - task.sp) u 0 deeper)

-- ===== src/Stack/Roll.antt =====
-- ROLL as a function on the list of a stack's cells.
use e.Base.{
  ℕ, zero, suc, ◌+◌, ◌-◌, ◌≤◌, ◌<◌, ◌≡◌, refl, arith, ap, List, [], ◌∷◌, ◌++◌, get_or, take, drop,
  ◌∙◌, dec_lt, ◌⊎◌, inr,
}
use e.Task.{Task, Memory, store}
use e.Stack.{roll, shift_up, depth, peek}
use e.Stack.Contents.{
  cells, contents, return_contents, IsCoherent, cells-suc, cells-store_below, store_same,
  store_other, depth_lem,
}
use e.Stack.Shuffle.{Refines, get_or-cells}

-- What Forth says of the word: the top `u` is the index of the cell that comes to the top.
abbrev pub roll_cells : List ℕ → List ℕ
roll_cells (u ∷ xs) = get_or xs u 0 ∷ take u xs ++ drop (u + 1) xs
roll_cells [] = []

pub cells_ext :
    (m m' : Memory) (a a' n : ℕ)
    → ((i : ℕ) → i < n → m (a + i) ≡ m' (a' + i))
    → cells m a n ≡ cells m' a' n
cells_ext m m' a a' zero same = refl
cells_ext m m' a a' (suc n) same = rw (
  first,
  cells_ext m m' (a + 1) (a' + 1) n
      (λ i h. ap m (omega arith) ∙ same (i + 1) (omega arith) ∙ ap m' (omega arith)),
)
  where
    first : m a ≡ m' a'
    first = ap m (omega arith) ∙ same 0 (omega arith) ∙ ap m' (omega arith)

cells-append :
    (m : Memory) (a i j n : ℕ) → n ≡ i + j → cells m a n ≡ cells m a i ++ cells m (a + i) j
cells-append m a zero j n e =
    let same : n ≡ j = omega arith in let start : a + 0 ≡ a = omega arith in rw (same, start)
cells-append m a (suc i) j zero e = absurd (omega arith)
cells-append m a (suc i) j (suc n) e =
    let start : a + 1 + i ≡ a + suc i = omega arith in
    ap (λ xs. m a ∷ xs) (rw start at (cells-append m (a + 1) i j n (omega arith)))

take-cells : (m : Memory) (a n u : ℕ) → u ≤ n → take u (cells m a n) ≡ cells m a u
take-cells m a n zero h = refl
take-cells m a zero (suc u) h = absurd (omega arith)
take-cells m a (suc n) (suc u) h = ap (λ xs. m a ∷ xs) (take-cells m (a + 1) n u (omega arith))

drop-cells : (m : Memory) (a n u : ℕ) → u ≤ n → drop u (cells m a n) ≡ cells m (a + u) (n - u)
drop-cells m a n zero h =
    let start : a + 0 ≡ a = omega arith in let whole : n - 0 ≡ n = omega arith in rw (start, whole)
drop-cells m a zero (suc u) h = absurd (omega arith)
drop-cells m a (suc n) (suc u) h =
    let start : a + 1 + u ≡ a + suc u = omega arith in
    let rest : suc n - suc u ≡ n - u = omega arith in
    rw rest (rw start at (drop-cells m (a + 1) n u (omega arith)))

-- The loop moves up the cells between the top and the index, and no other.
shift_up_kept :
    (m : Memory) (sp u x : ℕ) → (x ≤ sp + 1) ⊎ (sp + 1 + u < x) → shift_up m sp u x ≡ m x
unfolding shift_up
shift_up_kept m sp zero x out = refl
shift_up_kept m sp (suc u) x out =
    shift_up_kept (store m (sp + 1 + suc u) (m (sp + suc u))) sp u x (ground arith)
    ∙ store_other m (sp + 1 + suc u) (m (sp + suc u)) x (ground arith)

shift_up_moved :
    (m : Memory) (sp u x : ℕ) → sp + 1 < x → x ≤ sp + 1 + u → shift_up m sp u x ≡ m (x - 1)
unfolding shift_up
shift_up_moved m sp zero x low high = absurd (omega arith)
shift_up_moved m sp (suc u) x low high = elim (dec_lt (sp + 1 + u) x) [
  | yes last ↦
      let at : x ≡ sp + 1 + suc u = omega arith in
      shift_up_kept (store m (sp + 1 + suc u) (m (sp + suc u))) sp u x (inr last)
      ∙ ap (store m (sp + 1 + suc u) (m (sp + suc u))) at
      ∙ store_same m (sp + 1 + suc u) (m (sp + suc u))
      ∙ ap m (omega arith)
  | no inner ↦
      shift_up_moved (store m (sp + 1 + suc u) (m (sp + suc u))) sp u x low (omega arith)
      ∙ store_other m (sp + 1 + suc u) (m (sp + suc u)) (x - 1) (omega arith)
]

-- The cells after the loop and the store of the cell that was at the index.
rolled :
    (m : Memory) (sp u n tmp : ℕ)
    → u < n
    → cells (store (shift_up m sp u) (sp + 1) tmp) (sp + 1) n
      ≡ tmp ∷ cells m (sp + 1) u ++ cells m (sp + 1 + (u + 1)) (n - (u + 1))
rolled m sp u n tmp h =
    let m' = store (shift_up m sp u) (sp + 1) tmp in
    cells-suc m' (sp + 1) n (n - 1) (sp + 2) (omega arith) (omega arith)
    ∙ rw
        (
          store_same (shift_up m sp u) (sp + 1) tmp,
          cells-append m' (sp + 2) u (n - (u + 1)) (n - 1) (omega arith),
          moved,
          kept,
        )
        refl
  where
    moved : cells (store (shift_up m sp u) (sp + 1) tmp) (sp + 2) u ≡ cells m (sp + 1) u
    moved = cells_ext _ m (sp + 2) (sp + 1) u (λ i h'.
        store_other (shift_up m sp u) (sp + 1) tmp (sp + 2 + i) (omega arith)
        ∙ shift_up_moved m sp u (sp + 2 + i) (omega arith) (omega arith)
        ∙ ap m (omega arith))

    kept :
        cells (store (shift_up m sp u) (sp + 1) tmp) (sp + 2 + u) (n - (u + 1))
        ≡ cells m (sp + 1 + (u + 1)) (n - (u + 1))
    kept = cells_ext _ m (sp + 2 + u) (sp + 1 + (u + 1)) (n - (u + 1)) (λ i h'.
        store_other (shift_up m sp u) (sp + 1) tmp (sp + 2 + u + i) (omega arith)
        ∙ shift_up_kept m sp u (sp + 2 + u + i) (inr (omega arith))
        ∙ ap m (omega arith))

-- In a task whose stacks are in order, with an index on top and more cells below it than it
-- counts, ROLL takes the index off and brings the cell at that index to the top; the cells
-- above it move down by one, and the return stack and the order of the stacks are kept.
pub roll_lem :
    (task : Task) → IsCoherent task → peek task + 1 < depth task → Refines roll roll_cells task
unfolding roll contents return_contents peek
roll_lem task ok deep =
    let deeper : task.mem (task.sp + 1) + 1 < task.s0 - task.sp =
      omega (arith, depth_lem task ok.2) in
    let m = task.mem in
    let u = m (task.sp + 1) in
    let n = task.s0 - (task.sp + 1) in
    let whole = cells-suc m (task.sp + 1) (task.s0 - task.sp) n _ (omega arith) refl in
    (
      rolled m (task.sp + 1) u n _ (omega arith)
          ∙ rw whole (
              rw
                (
                  get_or-cells m (task.sp + 1 + 1) n u 0 (omega arith),
                  take-cells m (task.sp + 1 + 1) n u (omega arith),
                  drop-cells m (task.sp + 1 + 1) n (u + 1) (omega arith),
                )
                refl),
      cells-store_below (shift_up m (task.sp + 1) u) (task.sp + 1 + 1) _ (task.rp + 1) _
            (omega arith)
          ∙ cells_ext _ m (task.rp + 1) (task.rp + 1) _
              (λ i h. shift_up_kept m (task.sp + 1) u (task.rp + 1 + i) (inr (omega arith))),
      omega arith,
    )

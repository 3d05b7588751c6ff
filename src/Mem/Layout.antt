-- ===== src/Mem/Layout.antt =====
-- e4__mem_aligned and e4__mem_cells of core/src/util/mem.c, for cells of 8 bytes.
use e.Base.{ℕ, ◌+◌, ◌-◌, ◌*◌, ◌%◌, ◌^◌, ◌≤◌, ◌<◌, ◌≡◌, arith, ◌==◌, if◌then◌else◌, not}
use e.Usize.{modulus}

abbrev pub cell_sz : ℕ
cell_sz = 8

-- e4__mem_aligned
unfoldable pub aligned : ℕ → ℕ
aligned n = if not (n % cell_sz == 0) then (n + (cell_sz - n % cell_sz)) % modulus else n

-- e4__mem_cells
unfoldable pub cells_sz : ℕ → ℕ
cells_sz n = n * cell_sz % modulus

-- Below the last seven words, aligning gives the least multiple of the size of a cell that is not
-- below the word.
pub aligned_lem :
    (n : ℕ)
    → n < 2 ^ 64 - 7
    → (aligned n % cell_sz ≡ 0) × (n ≤ aligned n) × (aligned n < n + cell_sz)
unfolding aligned
aligned_lem n small = ground arith

-- Below the last seven words, aligning twice is aligning once.
pub aligned-aligned : (n : ℕ) → n < 2 ^ 64 - 7 → aligned (aligned n) ≡ aligned n
unfolding aligned
aligned-aligned n small = ground arith

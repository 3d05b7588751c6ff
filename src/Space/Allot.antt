-- ===== src/Space/Allot.antt =====
-- What e4__task_allot accepts, and that `here` never leaves the dictionary's space.
use e.Base.{
  ltb_false→le, ℕ, ◌+◌, ◌-◌, ◌*◌, ◌%◌, ◌^◌, ◌≤◌, ◌<◌, ◌≡◌, refl, arith, ltb, true, false, dec_lt,
  Bool-cases, inl, inr,
}
use e.Usize.{modulus}
use e.Task.{Task}
use e.Mem.Layout.{cell_sz}
use e.Exception.{Outcome, returns, throws, throw, throw_then}
use e.Space.{task_allot, task_unused, allot_unchecked, lower_bound, upper_bound, pno_min_sz}

-- Where `here` is within its bounds.
abbrev pub IsInSpace : ℕ → ℕ → Task → Type 0
IsInSpace self sizeof_task task =
    (self * cell_sz + sizeof_task ≤ task.here)
    × (task.here ≤ task.pad * cell_sz - pno_min_sz)
    × (task.pad * cell_sz < 2 ^ 64)

-- A property of the task after an outcome, whether code returns or jumps.
abbrev pub After : {A : Type 0} → (Task → Type 0) → Outcome A → Type 0
After P (returns _ task) = P task
After P (throws task) = P task

-- Whatever size is asked for, a negative one included, e4__task_allot keeps `here` in the space
-- of the dictionary where it was there before, whether the request is granted, refused by an
-- exception or refused by NULL.
pub task_allot-IsInSpace :
    (self sizeof_task : ℕ) (task : Task) (sz : ℕ)
    → IsInSpace self sizeof_task task
    → After (IsInSpace self sizeof_task) (task_allot self sizeof_task task sz)
unfolding task_allot throw throw_then allot_unchecked lower_bound upper_bound
task_allot-IsInSpace self sizeof_task task sz ok =
    elim (Bool-cases (ltb (task.pad * cell_sz - pno_min_sz) ((task.here + sz) % modulus))) [
      | inl over ↦
          rw over
            (elim (Bool-cases task.exception.valid) [ inl on ↦ rw on ok | inr off ↦ rw off ok ])
      | inr below ↦
          rw below
            (elim (Bool-cases (ltb ((task.here + sz) % modulus) (self * cell_sz + sizeof_task))) [
              | inl under ↦ rw under (elim (Bool-cases task.exception.valid) [
                | inl on ↦ rw on ok
                | inr off ↦ rw off ok
              ])
              | inr above ↦ rw above (ltb_false→le _ _ above, ltb_false→le _ _ below, ok.2)
            ])
    ]

module _ (self sizeof_task : ℕ) (task : Task) (sz : ℕ) (ok : IsInSpace self sizeof_task task)
    (whole : task.here % cell_sz ≡ 0) (wide : task.pad * cell_sz < 2 ^ 63)
    (small : sz < 2 ^ 63) where
  unused_lem :
      (task.here < task.pad * cell_sz - pno_min_sz
        → task_unused task ≡ task.pad * cell_sz - pno_min_sz - task.here)
      × (task.pad * cell_sz - pno_min_sz ≤ task.here → task_unused task ≡ 0)
  unfolding task_unused
  unused_lem = (
    λ room.
        let test : ltb task.here (task.pad * cell_sz - pno_min_sz) ≡ true = ground arith in
        rw test (omega arith),
    λ none_left.
        let test : ltb task.here (task.pad * cell_sz - pno_min_sz) ≡ false = ground arith in
        rw test refl,
  )

  -- The unused size is the room up to the upper bound.
  unused_room :
      ((sz ≤ task_unused task → task.here + sz ≤ task.pad * cell_sz - pno_min_sz))
      × (task_unused task < sz → task.pad * cell_sz - pno_min_sz < task.here + sz)
  unused_room = elim (dec_lt task.here (task.pad * cell_sz - pno_min_sz)) [
    | yes room ↦
        let size = unused_lem.0 room in (λ h. omega (arith, size), λ h. omega (arith, size))
    | no full ↦
        let size = unused_lem.1 (omega arith) in
        (λ h. omega (arith, size), λ h. omega (arith, size))
  ]

  -- For an aligned `here` in its space, a size below 2 ^ 63 that is not above the unused size is
  -- granted, and moves `here` by it.
  pub task_allot_granted :
      sz ≤ task_unused task
      → task_allot self sizeof_task task sz
        ≡ returns task.here (record task { here = task.here + sz })
  unfolding task_allot allot_unchecked lower_bound upper_bound
  task_allot_granted fits =
      let room = unused_room.0 fits in
      let used : (task.here + sz) % modulus ≡ task.here + sz = omega arith in
      let below : ltb (task.pad * cell_sz - pno_min_sz) (task.here + sz) ≡ false =
        ground (arith, room) in
      let above : ltb (task.here + sz) (self * cell_sz + sizeof_task) ≡ false =
        ground (arith, ok.0) in
      rw (used, below, above) refl

  -- For an aligned `here` in its space, a size below 2 ^ 63 that is above the unused size is refused,
  -- and leaves `here`, whether by an exception or by NULL.
  pub task_allot_refused :
      task_unused task < sz
      → After (λ task'. task'.here ≡ task.here) (task_allot self sizeof_task task sz)
  unfolding task_allot throw throw_then allot_unchecked lower_bound upper_bound
  task_allot_refused large =
      let used : (task.here + sz) % modulus ≡ task.here + sz = omega arith in
      let over : ltb (task.pad * cell_sz - pno_min_sz) (task.here + sz) ≡ true =
        ground (arith, unused_room.1 large) in
      rw (used, over)
        (elim (Bool-cases task.exception.valid) [ inl on ↦ rw on refl | inr off ↦ rw off refl ])

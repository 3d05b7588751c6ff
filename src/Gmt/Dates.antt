-- ===== src/Gmt/Dates.antt =====
-- Dates from March 1st, 2000 on: on which days the date is right, and on which it is not.
use e.Base.{
  ℕ, ◌+◌, ◌-◌, ◌*◌, ◌/◌, ◌%◌, ◌^◌, ◌≤◌, ◌<◌, ◌≡◌, ◌≢◌, refl, arith, leb, ltb, ◌==◌, ◌||◌, not, true,
  false, Bool, ◌&&◌, if◌then◌else◌, ◌⊎◌, dec_lt,
}
use e.Usize.{modulus}
use e.Gmt.{Gmt, date_of, month_loop, month_days, days_per_fyear, days_per_cent, days_per_qcent}
use e.Gmt.March.{days_before, common_days, month_loop_lem}

-- The days from March 1st, 2000 to a date of the Gregorian calendar that is not before it.
abbrev pub days_of : ℕ → ℕ → ℕ → ℕ
days_of year mon mday =
    let y = if leb mon 2 then year - 2001 else year - 2000 in
    365 * y + y / 4 + y / 400 - y / 100 + days_before mon + (mday - 1)

-- A year has a leap day: every fourth, but of the centuries only every fourth.
abbrev pub is_leap : ℕ → Bool
is_leap year = (year % 4 == 0) && (not (year % 100 == 0) || (year % 400 == 0))

abbrev pub days_in_month : ℕ → ℕ → ℕ
days_in_month year mon = if is_leap year && (mon == 2) then 29 else common_days mon

-- The year has the month, and the month the day.
abbrev pub IsDate : ℕ → ℕ → ℕ → Type 0
IsDate year mon mday = (1 ≤ mon) × (mon ≤ 12) × (1 ≤ mday) × (mday ≤ days_in_month year mon)

days_in_month_at_least : (year mon : ℕ) → common_days mon ≤ days_in_month year mon
days_in_month_at_least year mon = ground arith

common_days_at_most : (mon : ℕ) → common_days mon ≤ 31
common_days_at_most mon = ground arith

last_within : (a b c : ℕ) → a < b → b ≤ c → a + 1 ≤ c
last_within a b c below within = omega arith

-- The day inside its cycle of four years.
abbrev pub in_fyear : ℕ → ℕ
in_fyear days = days % days_per_qcent % days_per_cent % days_per_fyear

abbrev years : ℕ → ℕ
years days =
    in_fyear days / 365
    + 4 * (days % days_per_qcent % days_per_cent / days_per_fyear)
    + 100 * (days % days_per_qcent / days_per_cent)
    + 400 * (days / days_per_qcent)

-- The years and the day of the year make up the days.
years_lem :
    (days : ℕ)
    → in_fyear days % 365 ≢ 0
    → 365 * years days + years days / 4 + years days / 400 - years days / 100 + in_fyear days % 365
      ≡ days
years_lem days other = omega arith

reported_year :
    (y m : ℕ)
    → y < 2 ^ 61
    → (((y + 0) % modulus + 2000) % modulus + (if ltb 9 m then 1 else 0)) % modulus
      ≡ y + 2000 + (if ltb 9 m then 1 else 0)
reported_year y m small = ground arith

-- The years before the first of March belong to the year that started in March.
days_of_found :
    (y m k day days : ℕ)
    → m ≤ 11
    → k < 31
    → days_before ((m + 2) % 12 + 1) + k ≡ day
    → 365 * y + y / 4 + y / 400 - y / 100 + day ≡ days
    → days_of (y + 2000 + (if ltb 9 m then 1 else 0)) ((m + 2) % 12 + 1) ((k % 256 + 1) % 256)
      ≡ days
days_of_found y m k day days month small place whole = elim (dec_lt 9 m) [
  | yes late ↦
      let turned : ltb 9 m ≡ true = ground arith in
      let early : leb ((m + 2) % 12 + 1) 2 ≡ true = ground arith in
      let year : y + 2000 + 1 - 2001 ≡ y = omega arith in rw (turned, early, year) (omega arith)
  | no early ↦
      let turned : ltb 9 m ≡ false = ground arith in
      let late : leb ((m + 2) % 12 + 1) 2 ≡ false = ground arith in
      let year : y + 2000 + 0 - 2000 ≡ y = omega arith in rw (turned, late, year) (omega arith)
]

-- On or after March 1st, 2000, on a day that is not a multiple of 365 in its cycle of four years,
-- the date is a date of the Gregorian calendar that is as many days after March 1st, 2000.
pub date_of_lem :
    (days : ℕ) (gmt : Gmt)
    → days < 2 ^ 60
    → in_fyear days % 365 ≢ 0
    → (days_of
          (date_of false days gmt).year
          (date_of false days gmt).mon
          (date_of false days gmt).mday
        ≡ days)
      × IsDate
          (date_of false days gmt).year
          (date_of false days gmt).mon
          (date_of false days gmt).mday
unfolding date_of
date_of_lem days gmt small other =
    let day = in_fyear days % 365 in
    let later : (day == 0) ≡ false = ground arith in
    let place = month_loop_lem day (omega arith) in
    let whole = years_lem days other in
    let low : years days < 2 ^ 61 = omega arith in
    let f = month_loop month_days 0 day in
    let year = years days + 2000 + (if ltb 9 f.mon then 1 else 0) in
    let short = common_days_at_most ((f.mon + 2) % 12 + 1) in
    let month = days_in_month_at_least year ((f.mon + 2) % 12 + 1) in
    let k : f.days < 31 = omega (arith, place.1, short) in
    let mday : (f.days % 256 + 1) % 256 ≡ f.days + 1 = omega (arith, k) in
    rw (later, reported_year (years days) f.mon low)
      (
        days_of_found (years days) f.mon f.days day days place.0 k place.2 whole,
        (
          omega arith,
          omega arith,
          rw mday (omega arith),
          rw mday (last_within _ _ _ place.1 month),
        ),
      )

-- On the days 365, 730 and 1095 of a cycle of four years that is not the first of its century, or
-- is the first of a century that begins with a leap year, the date is the 29th of February of a
-- year that is no multiple of four.
pub date_of_no_day :
    (days : ℕ) (gmt : Gmt)
    → days < 2 ^ 60
    → (in_fyear days ≡ 365) ⊎ (in_fyear days ≡ 730) ⊎ (in_fyear days ≡ 1095)
    → (days % days_per_qcent % days_per_cent / days_per_fyear ≢ 0)
      ⊎ (days % days_per_qcent / days_per_cent % 4 ≡ 0)
    → ((date_of false days gmt).mon ≡ 2)
      × ((date_of false days gmt).mday ≡ 29)
      × ((date_of false days gmt).year % 4 ≢ 0)
unfolding date_of
date_of_no_day days gmt small on cycle =
    let first : (in_fyear days % 365 == 0) ≡ true = ground arith in
    let skips : (not (days % days_per_qcent % days_per_cent / days_per_fyear == 0)
          || days % days_per_qcent / days_per_cent % 4 == 0)
        ≡ true =
      ground arith in
    let low : years days < 2 ^ 61 = omega arith in rw (first, skips) (refl, refl, omega arith)

-- ===== src/Gmt/March.antt =====
-- The loop over the months of a year that starts in March.
use e.Base.{
  ℕ, ◌+◌, ◌*◌, ◌/◌, ◌%◌, ◌≤◌, ◌<◌, ◌≡◌, refl, arith, leb, ltb, ◌==◌, ◌&&◌, ◌||◌, Bool, true,
  if◌then◌else◌,
}
use e.Base.Below.{every_below, every_below_lem}
use e.Gmt.{month_loop, MonthDay, month_days}

-- The days of a year from March 1st to the first of a month.
abbrev pub days_before : ℕ → ℕ
days_before mon = (153 * ((mon + 9) % 12) + 2) / 5

-- The days of a month of a year without a leap day.
abbrev pub common_days : ℕ → ℕ
common_days mon =
    if mon == 2
    then 28
    else if (mon == 4) || (mon == 6) || (mon == 9) || (mon == 11)
    then 30
    else 31

abbrev found : ℕ → MonthDay
found day = month_loop month_days 0 day

-- The month and the day that the loop finds are those of the day, and the month has that day.
abbrev is_found : ℕ → Bool
is_found day =
    leb (found day).mon 11
    && (ltb (found day).days (common_days (((found day).mon + 2) % 12 + 1))
        && days_before (((found day).mon + 2) % 12 + 1) + (found day).days == day)

year_found : every_below 365 is_found ≡ true
unfolding month_loop
year_found = refl

pub month_loop_lem :
    (day : ℕ)
    → day < 365
    → ((month_loop month_days 0 day).mon ≤ 11)
      × ((month_loop month_days 0 day).days
          < common_days (((month_loop month_days 0 day).mon + 2) % 12 + 1))
      × (days_before (((month_loop month_days 0 day).mon + 2) % 12 + 1)
            + (month_loop month_days 0 day).days
          ≡ day)
month_loop_lem day h =
    let all : is_found day ≡ true = every_below_lem 365 is_found year_found day h in ground arith

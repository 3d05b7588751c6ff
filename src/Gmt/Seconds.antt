-- ===== src/Gmt/Seconds.antt =====
-- e4__usize_togmt on seconds from March 1st, 2000 on.
use e.Base.{
  ℕ, ◌+◌, ◌-◌, ◌*◌, ◌/◌, ◌%◌, ◌^◌, ◌≤◌, ◌<◌, ◌≡◌, ◌≢◌, refl, arith, false, ◌⊎◌, Bool-cases, inl,
  inr, ◌&&◌, ◌||◌, not, ◌==◌, ◌∙◌,
}
use e.Usize.{is_negative}
use e.Gmt.{Gmt, togmt, date_of, days_from_march, days_per_fyear, days_per_cent, days_per_qcent}
use e.Gmt.Dates.{days_of, IsDate, in_fyear, date_of_lem, date_of_no_day}

-- The whole days of a time, counted from March 1st, 2000.
abbrev pub march_days : ℕ → ℕ
march_days t = t / 86400 - 11017

abbrev clock : ℕ → Gmt
clock t = record {
  year = 0;
  mon = 0;
  mday = 0;
  hour = t / 3600 % 24;
  min = t / 60 % 60;
  sec = t % 60;
}

days_from_march_lem : (t : ℕ) → t < 2 ^ 64 → 11017 ≤ t / 86400 → days_from_march t ≡ march_days t
unfolding days_from_march
days_from_march_lem t word late = omega arith

not_negated : (t : ℕ) → t < 2 ^ 64 → is_negative (march_days t) ≡ false
unfolding is_negative
not_negated t word = ground arith

date_of_seconds :
    (t : ℕ) → t < 2 ^ 64 → 11017 ≤ t / 86400 → togmt t ≡ date_of false (march_days t) (clock t)
unfolding togmt
date_of_seconds t word late = rw (togmt, days_from_march_lem t word late, not_negated t word) refl

abbrev seconds_of : Gmt → ℕ
seconds_of gmt = gmt.hour * 3600 + gmt.min * 60 + gmt.sec

-- The date leaves the time of the day.
date_of_seconds_kept : (days : ℕ) (gmt : Gmt) → seconds_of (date_of false days gmt) ≡ seconds_of gmt
unfolding date_of
date_of_seconds_kept days gmt =
    elim (Bool-cases (
      in_fyear days % 365 == 0
      && (not (days % days_per_qcent % days_per_cent / days_per_fyear == 0)
          || days % days_per_qcent / days_per_cent % 4 == 0))) [
            | inl e ↦ rw e refl
            | inr e ↦ rw e refl
          ]

-- For a time from March 1st, 2000 on, on a day that is not a multiple of 365 in its cycle of four
-- years from that day on, the result is the time's date in the Gregorian calendar, and the second of
-- its day in hours, minutes and seconds: the year has the month and the month the day, by the rule
-- of leap years, and the date is as many days after March 1st, 2000 as the time.
pub togmt_lem :
    (t : ℕ)
    → t < 2 ^ 64
    → 11017 ≤ t / 86400
    → in_fyear (march_days t) % 365 ≢ 0
    → (days_of (togmt t).year (togmt t).mon (togmt t).mday ≡ march_days t)
      × ((togmt t).hour * 3600 + (togmt t).min * 60 + (togmt t).sec ≡ t % 86400)
      × IsDate (togmt t).year (togmt t).mon (togmt t).mday
togmt_lem t word late other =
    let date = date_of_lem (march_days t) (clock t) (omega arith) other in
    rw (date_of_seconds t word late)
      (date.0, date_of_seconds_kept (march_days t) (clock t) ∙ omega arith, date.1)

-- For a time from March 1st, 2000 on, on the day 365, 730 or 1095 of a cycle of four years from
-- that day on, which is not the first of its century, or is the first of a century that begins with
-- a leap year, the result is the 29th of February of a year that is no multiple of four.
pub togmt_no_day :
    (t : ℕ)
    → t < 2 ^ 64
    → 11017 ≤ t / 86400
    → (in_fyear (march_days t) ≡ 365)
      ⊎ (in_fyear (march_days t) ≡ 730)
      ⊎ (in_fyear (march_days t) ≡ 1095)
    → (march_days t % days_per_qcent % days_per_cent / days_per_fyear ≢ 0)
      ⊎ (march_days t % days_per_qcent / days_per_cent % 4 ≡ 0)
    → ((togmt t).mon ≡ 2) × ((togmt t).mday ≡ 29) × ((togmt t).year % 4 ≢ 0)
togmt_no_day t word late on cycle =
    rw (date_of_seconds t word late)
      (date_of_no_day (march_days t) (clock t) (omega arith) on cycle)

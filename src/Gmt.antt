-- ===== src/Gmt.antt =====
-- e4__usize_togmt of core/src/util/usize.c: seconds since 1970 as a date and a time. Years are
-- words; the other parts fit a byte.
pub mod Dates
pub mod March
pub mod Seconds
use e.Base.{
  ℕ, suc, ◌+◌, ◌-◌, ◌*◌, ◌/◌, ◌%◌, ◌^◌, Bool, true, false, ◌&&◌, ◌||◌, not, ltb, leb, ◌==◌,
  if◌then◌else◌, List, [], ◌∷◌,
}
use e.Usize.{modulus, is_negative, negate}

-- struct e4__gmt
pub record Gmt : Type 0 where
  pub year : ℕ
  pub mon : ℕ
  pub mday : ℕ
  pub hour : ℕ
  pub min : ℕ
  pub sec : ℕ

abbrev pub days_per_fyear : ℕ
days_per_fyear = 365 * 4 + 1

abbrev pub days_per_cent : ℕ
days_per_cent = 25 * days_per_fyear - 1

abbrev pub days_per_qcent : ℕ
days_per_qcent = days_per_cent * 4 + 1

-- The lengths of the months from March on.
abbrev pub month_days : List ℕ
month_days = 31 ∷ 30 ∷ 31 ∷ 30 ∷ 31 ∷ 31 ∷ 30 ∷ 31 ∷ 30 ∷ 31 ∷ 31 ∷ 29 ∷ []

-- A month from March on and a day of it.
pub record MonthDay : Type 0 where
  pub mon : ℕ
  pub days : ℕ

-- The loop over the months.
unfoldable pub month_loop : List ℕ → ℕ → ℕ → MonthDay
month_loop [] mon days = record { mon = mon; days = days }
month_loop (m ∷ months) mon days =
    let further = month_loop months (mon + 1) (days - m) in
    if leb m days then further else record { mon = mon; days = days }

-- The days from March 1st, 2000, their sign taken off, and what is left in each cycle.
unfoldable pub days_from_march : ℕ → ℕ
days_from_march t = (t / 86400 + modulus - 11017) % modulus

-- The date of e4__usize_togmt for a count of days without its sign.
unfoldable pub date_of : Bool → ℕ → Gmt → Gmt
date_of negated days gmt =
    let qcents = days / days_per_qcent in
    let in_qcent = days % days_per_qcent in
    let cents = in_qcent / days_per_cent in
    let in_cent = in_qcent % days_per_cent in
    let fyears = in_cent / days_per_fyear in
    let in_fyear = in_cent % days_per_fyear in
    let year =
      (in_fyear / 365 + 4 * fyears + 100 * cents + 400 * qcents + (if negated then 1 else 0))
      % modulus in
    let year' = ((if negated then negate year else year) + 2000) % modulus in
    let day = in_fyear % 365 in
    let day' = if negated then (negate day + 366) % modulus else day in
    let found = month_loop month_days 0 day' in
    if day' == 0 && (not (fyears == 0) || cents % 4 == 0)
    then record gmt { year = year'; mon = 2; mday = 29 }
    else record gmt {
      year = (year' + (if ltb 9 found.mon then 1 else 0)) % modulus;
      mon = (found.mon + 2) % 12 + 1;
      mday = (found.days % 256 + 1) % 256;
    }

-- e4__usize_togmt
unfoldable pub togmt : ℕ → Gmt
togmt t =
    let days = days_from_march t in
    let negated = is_negative days in
    date_of negated (if negated then negate days else days) (record {
      year = 0;
      mon = 0;
      mday = 0;
      hour = t / 3600 % 24;
      min = t / 60 % 60;
      sec = t % 60;
    })

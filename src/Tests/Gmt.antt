-- ===== src/Tests/Gmt.antt =====
-- Two times: March 2nd and March 1st of 2001. The second comes out as the 29th of February.
use e.Base.{ℕ, ◌+◌, ◌*◌, ◌%◌, ◌≡◌, ◌≢◌, refl, arith, inl, inr}
use e.Gmt.{togmt, month_loop, date_of, days_from_march}
use e.Usize.{is_negative}
use e.Gmt.Dates.{days_of, IsDate}
use e.Gmt.Seconds.{march_days, togmt_lem, togmt_no_day}

-- 2001-03-02 12:34:56
abbrev second_of_march : ℕ
second_of_march = 983536496

-- 2001-03-01 00:00:00
abbrev first_of_march : ℕ
first_of_march = 983404800

togmt_example :
    (days_of (togmt second_of_march).year (togmt second_of_march).mon (togmt second_of_march).mday
      ≡ march_days second_of_march)
    × ((togmt second_of_march).hour * 3600
          + (togmt second_of_march).min * 60
          + (togmt second_of_march).sec
        ≡ second_of_march % 86400)
    × IsDate (togmt second_of_march).year (togmt second_of_march).mon (togmt second_of_march).mday
togmt_example = togmt_lem second_of_march (omega arith) (omega arith) (omega arith)

togmt_no_day_example :
    ((togmt first_of_march).mon ≡ 2)
    × ((togmt first_of_march).mday ≡ 29)
    × ((togmt first_of_march).year % 4 ≢ 0)
togmt_no_day_example = togmt_no_day first_of_march (omega arith) (omega arith) (inl refl) (inr refl)

second_of_march_date :
    togmt second_of_march ≡ record { year = 2001; mon = 3; mday = 2; hour = 12; min = 34; sec = 56 }
unfolding togmt date_of month_loop days_from_march is_negative
second_of_march_date = refl

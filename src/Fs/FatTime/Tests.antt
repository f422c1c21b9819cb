-- ===== src/Fs/FatTime/Tests.antt =====
-- Time stamps at chosen moments.
use startos.Prelude.{ℕ, ◌-◌, ◌%◌, ◌≡◌, refl, arith}
use startos.Fs.FatTime.{
  fat_time2unix, unix_time2fat, fat_date, fat_time, year_of, month_and_day, days_in_year,
  is_leap_year, leap_days,
}
use startos.Fs.FatTime.RoundTrip.{round_trip}

-- 29 February 2000, 12:34:57.
abbrev leap_day_2000 : ℕ
leap_day_2000 = 951827697

stamped : unix_time2fat leap_day_2000 ≡ (10333, 25692)
unfolding unix_time2fat fat_date fat_time year_of month_and_day days_in_year is_leap_year leap_days
stamped = refl

round_trip_example :
    fat_time2unix (unix_time2fat leap_day_2000).0 (unix_time2fat leap_day_2000).1
    ≡ leap_day_2000 - leap_day_2000 % 2
round_trip_example = round_trip leap_day_2000 (omega arith) (omega arith)

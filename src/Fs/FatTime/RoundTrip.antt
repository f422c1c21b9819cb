-- ===== src/Fs/FatTime/RoundTrip.antt =====
-- The two conversions are inverse, up to the two seconds that a FAT time counts in.
use startos.Prelude.{
  ℕ, ◌+◌, ◌-◌, ◌*◌, ◌/◌, ◌%◌, ◌^◌, ◌≤◌, ◌<◌, ltb, leb, if◌then◌else◌, ◌&&◌, ◌≡◌, refl, Bool, true,
  false, bit_and, bit_or, max, arith,
}
use startos.Prelude.Bits.{bit_and-mask, bit_or-fields}
use startos.Fs.FatTime.{
  days_in_year, is_leap_year, leap_days, year_of, month_and_day, fat_date, fat_time, unix_time2fat,
  fat_time2unix,
}
use startos.Fs.FatTime.Calendar.{
  YearOf, year_start, year_of-YearOf, is_month_day, month_and_day-is_month_day,
}

date-eq :
    (y m d : ℕ)
    → y < 128
    → m < 13
    → d < 31
    → bit_or (bit_or (y * 2 ^ 9) (m * 2 ^ 5)) (d + 1) % 2 ^ 16 ≡ y * 512 + m * 32 + d + 1
date-eq y m d h l n = ground (
  arith,
  bit_or-fields 9 y (m * 32) (omega (arith, l)),
  bit_or-fields 5 (y * 16 + m) (d + 1) (omega (arith, n)),
)

fat_time-eq : (s : ℕ) → fat_time s ≡ s / 3600 % 24 * 2048 + s / 60 % 60 * 32 + s % 60 / 2
unfolding fat_time
fat_time-eq s = ground (
  arith,
  bit_or-fields 11 (s / 3600 % 24) (s / 60 % 60 * 32) (omega arith),
  bit_or-fields 5 (s / 3600 % 24 * 64 + s / 60 % 60) (s % 60 / 2) (omega arith),
)

-- The conversion back, on a date and a time given by their fields.
fat_time2unix-eq :
    (y m d hour minute second : ℕ)
    → 1 ≤ m
    → m < 13
    → d < 31
    → minute < 64
    → second < 32
    → fat_time2unix (y * 512 + m * 32 + d + 1) (hour * 2048 + minute * 32 + second)
      ≡ second * 2
        + minute * 60
        + hour * 3600
        + (y * 365
            + (leap_days y + (if is_leap_year y && ltb 2 m then 1 else 0))
            + days_in_year m
            + d
            + 3652)
          * 86400
unfolding fat_time2unix
fat_time2unix-eq y m d hour minute second m1 m2 dl ml sl =
    let date : ℕ = y * 512 + m * 32 + d + 1 in
    let time : ℕ = hour * 2048 + minute * 32 + second in
    let ey : (y * 512 + m * 32 + d + 1) / 512 ≡ y = omega (arith, m2, dl) in
    let em : max 1 (bit_and ((y * 512 + m * 32 + d + 1) / 32) 15) ≡ m =
      omega (arith, m1, m2, dl, bit_and-mask 4 ((y * 512 + m * 32 + d + 1) / 32)) in
    let ed : max 1 (bit_and (y * 512 + m * 32 + d + 1) 31) - 1 ≡ d =
      omega (arith, dl, bit_and-mask 5 (y * 512 + m * 32 + d + 1)) in
    let es : bit_and (hour * 2048 + minute * 32 + second) 31 ≡ second =
      omega (arith, sl, bit_and-mask 5 (hour * 2048 + minute * 32 + second)) in
    let et : bit_and ((hour * 2048 + minute * 32 + second) / 32) 63 ≡ minute =
      omega (arith, sl, ml, bit_and-mask 6 ((hour * 2048 + minute * 32 + second) / 32)) in
    let eh : (hour * 2048 + minute * 32 + second) / 2048 ≡ hour = omega (arith, sl, ml) in
    rw (ey, em, ed, es, et, eh) refl

-- The fields of the date of a day since 1980.
record Dated (days : ℕ) : Type 0 where
  year : ℕ
  month : ℕ
  day : ℕ
  month_from : 1 ≤ month
  month_to : month < 13
  day_lt : day < 31
  date : fat_date days ≡ year * 512 + month * 32 + day + 1
  count :
      days
      ≡ year * 365
        + (leap_days year + (if is_leap_year year && ltb 2 month then 1 else 0))
        + days_in_year month
        + day

fat_date-Dated : (days : ℕ) → days < 46751 → Dated days
unfolding fat_date
fat_date-Dated days h =
    let y : ℕ = year_of days in
    let of_year : YearOf days (year_of days) = year_of-YearOf days h in
    let leap : Bool = is_leap_year (year_of days) in
    let rest : ℕ = days - year_start (year_of days) in
    let md : ℕ × ℕ =
      month_and_day (is_leap_year (year_of days)) (days - year_start (year_of days)) in
    let fits : is_month_day leap rest md.0 md.1 ≡ true =
      month_and_day-is_month_day leap rest of_year.in_year in
    let to_12 : md.0 < 13 = ground (arith, fits) in
    let below : md.1 < 31 = ground (arith, fits) in
    record {
      year = y;
      month = md.0;
      day = md.1;
      month_from = ground (arith, fits);
      month_to = to_12;
      day_lt = below;
      date = date-eq y md.0 md.1 of_year.year_lt to_12 below;
      count = ground (arith, fits, of_year.starts);
    }

-- From 1980 to 2107, a moment comes back from its FAT date and time, rounded down to two seconds.
pub round_trip :
    (s : ℕ)
    → 315532800 ≤ s
    → s < 4354819200
    → fat_time2unix (unix_time2fat s).0 (unix_time2fat s).1 ≡ s - s % 2
unfolding unix_time2fat
round_trip s lo hi =
    let first : ltb s 315532800 ≡ false = ground (arith, lo) in
    let last : leb 4354819200 s ≡ false = ground (arith, hi) in
    let d : Dated (s / 86400 - 3652) = fat_date-Dated (s / 86400 - 3652) (omega (arith, hi)) in
    rw (first, last, d.date, fat_time-eq s)
      (omega (
        arith,
        lo,
        d.count,
        fat_time2unix-eq d.year d.month d.day (s / 3600 % 24) (s / 60 % 60) (s % 60 / 2)
            d.month_from d.month_to d.day_lt (omega arith) (omega arith),
      ))

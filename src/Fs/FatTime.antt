-- ===== src/Fs/FatTime.antt =====
-- kernel/fs/fat32/fat_utils.cpp: time stamps of FAT directory entries, a date and a time of 16 bits
-- each, and seconds since 1970. Years count from 1980. Seconds before 1970, negative in the source,
-- take the first branch as 0 does, and are not modelled.
use startos.Prelude.{
  ℕ, zero, suc, ◌+◌, ◌-◌, ◌*◌, ◌/◌, ◌%◌, ◌^◌, ◌==◌, ltb, leb, if◌then◌else◌, ◌&&◌, not, Bool, true,
  false, List, [], ◌∷◌, get_or, max, bit_and, bit_or,
}
pub mod Calendar
pub mod RoundTrip
mod Tests

abbrev pub secs_per_day : ℕ
secs_per_day = 86400

abbrev pub unix_secs_1980 : ℕ
unix_secs_1980 = 315532800

abbrev pub unix_secs_2108 : ℕ
unix_secs_2108 = 4354819200

-- Days from 1970 to 1980.
abbrev pub days_delta : ℕ
days_delta = 3652

abbrev pub month_starts : List ℕ
month_starts = 0 ∷ 0 ∷ 31 ∷ 59 ∷ 90 ∷ 120 ∷ 151 ∷ 181 ∷ 212 ∷ 243 ∷ 273 ∷ 304 ∷ 334 ∷ 0 ∷ 0 ∷ 0 ∷ []

-- How many days of a common year stand before a month.
unfoldable pub days_in_year : ℕ → ℕ
days_in_year month = get_or month_starts month 0

unfoldable pub is_leap_year : ℕ → Bool
is_leap_year y = bit_and y 3 == 0 && not (y == 120)

-- The leap days before a year; 2100 is not a leap year.
unfoldable pub leap_days : ℕ → ℕ
leap_days year = (year + 3) / 4 - (if ltb 120 year then 1 else 0)

unfoldable pub fat_time2unix : ℕ → ℕ → ℕ
fat_time2unix date time =
    let year = date / 2 ^ 9 in
    let month = max 1 (bit_and (date / 2 ^ 5) 15) in
    let day = max 1 (bit_and date 31) - 1 in
    let leap_day = leap_days year + (if is_leap_year year && ltb 2 month then 1 else 0) in
    bit_and time 31 * 2
    + bit_and (time / 2 ^ 5) 63 * 60
    + time / 2 ^ 11 * 3600
    + (year * 365 + leap_day + days_in_year month + day + days_delta) * secs_per_day

unfoldable pub year_of : ℕ → ℕ
year_of day =
    let year = day / 365 in if ltb day (year * 365 + leap_days year) then year - 1 else year

-- `for (month = 1; month < 12; month++)`, with `k` months left to try.
abbrev pub month_loop : ℕ → ℕ → ℕ → ℕ
month_loop zero month day = month
month_loop (suc k) month day =
    let rest = month_loop k (suc month) day in
    if ltb day (days_in_year (month + 1)) then month else rest

-- The month and the day in it, counted from 0, of a day of the year.
unfoldable pub month_and_day : Bool → ℕ → ℕ × ℕ
month_and_day leap day =
    if leap && (day == days_in_year 3)
    then (2, day - days_in_year 2)
    else (let common = if leap && ltb (days_in_year 3) day then day - 1 else day in
        let month = month_loop 11 1 common in (month, common - days_in_year month))

unfoldable pub fat_date : ℕ → ℕ
fat_date days =
    let year = year_of days in
    let md = month_and_day (is_leap_year year) (days - (year * 365 + leap_days year)) in
    bit_or (bit_or (year * 2 ^ 9) (md.0 * 2 ^ 5)) (md.1 + 1) % 2 ^ 16

unfoldable pub fat_time : ℕ → ℕ
fat_time second =
    bit_or (bit_or (second / 3600 % 24 * 2 ^ 11) (second / 60 % 60 * 2 ^ 5)) (second % 60 / 2)
    % 2 ^ 16

-- The date and the time.
unfoldable pub unix_time2fat : ℕ → ℕ × ℕ
unix_time2fat second =
    if ltb second unix_secs_1980
    then (33, 0)
    else (if leb unix_secs_2108 second
        then (
          bit_or (bit_or (127 * 2 ^ 9) (12 * 2 ^ 5)) 31,
          bit_or (bit_or (23 * 2 ^ 11) (59 * 2 ^ 5)) 29,
        )
        else (fat_date (second / secs_per_day - days_delta), fat_time second))

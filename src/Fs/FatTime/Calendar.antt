-- ===== src/Fs/FatTime/Calendar.antt =====
-- The year of a day, and the month of a day of the year.
use startos.Prelude.{
  ℕ, zero, suc, ◌+◌, ◌-◌, ◌*◌, ◌%◌, ◌≤◌, ◌<◌, ◌==◌, ltb, leb, if◌then◌else◌, ◌&&◌, not, ◌≡◌, refl,
  subst, Bool, true, false, Bool-cases, inl, inr, arith,
}
use startos.Prelude.Bits.{bit_and-mask}
use startos.Fs.FatTime.{days_in_year, is_leap_year, leap_days, year_of, month_and_day}

-- The first day of a year.
abbrev pub year_start : ℕ → ℕ
year_start y = y * 365 + leap_days y

abbrev pub year_length : Bool → ℕ
year_length leap = if leap then 366 else 365

pub record YearOf (day y : ℕ) : Type 0 where
  pub year_lt : y < 128
  pub starts : year_start y ≤ day
  pub in_year : day - year_start y < year_length (is_leap_year y)

leap-eq : (y : ℕ) → is_leap_year y ≡ (y % 4 == 0 && not (y == 120))
unfolding is_leap_year
leap-eq y = ground (arith, bit_and-mask 2 y)

-- The source's guess for the year is at most one too high.
pub year_of-YearOf : (day : ℕ) → day < 46751 → YearOf day (year_of day)
unfolding year_of leap_days
year_of-YearOf day h = record {
  year_lt = ground (arith, h);
  starts = ground (arith, h);
  in_year = ground (arith, h, leap-eq (year_of day));
}

-- What a month and a day in it, counted from 0, must be for a day of the year.
abbrev pub is_month_day : Bool → ℕ → ℕ → ℕ → Bool
is_month_day leap day month rest =
    leb 1 month
    && leb month 12
    && ltb rest 31
    && (days_in_year month + rest + (if leap && ltb 2 month then 1 else 0) == day)

checked : Bool → ℕ → Bool
checked leap day = is_month_day leap day (month_and_day leap day).0 (month_and_day leap day).1

checked_below : Bool → ℕ → Bool
checked_below leap zero = true
checked_below leap (suc n) = checked leap n && checked_below leap n

checked_below-checked :
    (leap : Bool) (n day : ℕ) → checked_below leap n ≡ true → day < n → checked leap day ≡ true
unfolding checked_below
checked_below-checked leap zero day h l = absurd (omega arith)
checked_below-checked leap (suc n) day h l = elim (Bool-cases (day == n)) [
  | inl e ↦
      (let same : n ≡ day = ground (arith, e) in
        subst (λ d. checked leap d ≡ true) same (ground (arith, h)))
  | inr e ↦ checked_below-checked leap n day (ground (arith, h)) (ground (arith, e, l))
]

all_days : (leap : Bool) → checked_below leap (year_length leap) ≡ true
unfolding month_and_day days_in_year checked_below checked
all_days true = refl
all_days false = refl

-- The month and day found are those of the day of the year.
pub month_and_day-is_month_day :
    (leap : Bool) (day : ℕ)
    → day < year_length leap
    → is_month_day leap day (month_and_day leap day).0 (month_and_day leap day).1 ≡ true
unfolding checked
month_and_day-is_month_day leap day h =
    checked_below-checked leap (year_length leap) day (all_days leap) h

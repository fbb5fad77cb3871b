-- ===== src/Calendar/Days.antt =====
-- Years of 365 days, every fourth of 366: the years and days that rtc_func.c finds and counts.
use common_lib.Prelude.{
  ℕ, ◌+◌, ◌-◌, ◌*◌, ◌/◌, ◌%◌, ◌<◌, ◌≤◌, ◌≡◌, ◌==◌, ltb, if◌then◌else◌, arith, add32, sub32, mul32,
  ltb,
}
use common_lib.Calendar.{leap_year_periods, whole_years, day_of_year, days_since_1970}

-- days from 1 January 1968, a leap year, to the first of a year that is `years` years later
abbrev pub days_before : ℕ → ℕ
days_before years = years * 365 + (years + 3) / 4

abbrev pub year_length : ℕ → ℕ
year_length years = if years % 4 == 0 then 366 else 365

-- The year that a day falls in, counted from 1968, and the day of that year.
abbrev pub year_at : ℕ → ℕ
year_at days = days / 1461 * 4 + (if ltb (days % 1461) 366 then 0 else (days % 1461 - 1) / 365)

abbrev pub day_at : ℕ → ℕ
day_at days = if ltb (days % 1461) 366 then days % 1461 else (days % 1461 - 1) % 365

pub whole_years-eq : (days : ℕ) → days < 60000 → whole_years days ≡ year_at days
unfolding whole_years leap_year_periods sub32
whole_years-eq days h = ground arith

pub day_of_year-eq : (days : ℕ) → days < 60000 → day_of_year days ≡ day_at days
unfolding day_of_year leap_year_periods sub32 add32 mul32
day_of_year-eq days h = ground (arith, whole_years-eq days)

pub day_at-lt : (days : ℕ) → day_at days < year_length (year_at days)
day_at-lt days = ground arith

pub days_before-year_at : (days : ℕ) → days_before (year_at days) + day_at days ≡ days
days_before-year_at days = ground arith

-- rtc_to_binary counts back from the year and the day in it.
pub days_since_1970-year_at :
    (days : ℕ)
    → 731 ≤ days
    → days < 60000
    → days_since_1970 (year_at days + 1968) (day_at days) ≡ days - 731
unfolding days_since_1970 add32 sub32 mul32
days_since_1970-year_at days h1 h2 = ground arith

-- the next day, which is in the next year after the last of a year
pub year_at-suc :
    (days : ℕ)
    → year_at (days + 1)
      ≡ (if day_at days + 1 == year_length (year_at days) then year_at days + 1 else year_at days)
year_at-suc days = ground arith

pub day_at-suc :
    (days : ℕ)
    → day_at (days + 1)
      ≡ (if day_at days + 1 == year_length (year_at days) then 0 else day_at days + 1)
day_at-suc days = ground arith

-- ===== src/Calendar/Gregorian.antt =====
-- The calendar in use, in which a century is a leap year only when 400 divides it; before 2100 the days of
-- Calendar/Reference are its days.
use common_lib.Prelude.{
  ℕ, zero, suc, ◌+◌, ◌%◌, ◌<◌, ◌≡◌, ◌==◌, ltb, if◌then◌else◌, Bool, not, ◌&&◌, ◌||◌, refl, arith,
  ap, ◌∙◌,
}
use common_lib.Calendar.Days.{year_at}
use common_lib.Calendar.Months.{days_in_month}
use common_lib.Calendar.Reference.{Date, next_date, date_after, date_after-date_at}

abbrev pub is_leap_year : ℕ → Bool
is_leap_year year = year % 4 == 0 && (not (year % 100 == 0) || year % 400 == 0)

abbrev pub month_length : ℕ → ℕ → ℕ
month_length year month =
    if month == 2
    then (if is_leap_year year then 29 else 28)
    else if month == 4 || month == 6 || month == 9 || month == 11
    then 30
    else 31

unfoldable pub next_gregorian : Date → Date
next_gregorian t =
    if ltb t.day (month_length t.year t.month)
    then record t { day = t.day + 1 }
    else if t.month == 12
    then record { year = t.year + 1; month = 1; day = 1 }
    else record { year = t.year; month = t.month + 1; day = 1 }

-- the date `days` days after 1 January 1970
unfoldable pub gregorian_after : ℕ → Date
unfolding next_gregorian
gregorian_after zero = record { year = 1970; month = 1; day = 1 }
gregorian_after (suc days) = next_gregorian (gregorian_after days)

next_gregorian-next_date :
    (t : Date) → 1900 < t.year → t.year < 2100 → next_gregorian t ≡ next_date t
unfolding next_gregorian next_date days_in_month
next_gregorian-next_date t low high = ground (arith, same)
  where
    same : is_leap_year t.year ≡ (t.year % 4 == 0)
    same = ground arith

before_2100 : (days : ℕ) → days < 47482 → year_at (days + 731) < 132
before_2100 days h = ground arith

year_of :
    (days : ℕ) → days < 47482 → (1900 < (date_after days).year) × ((date_after days).year < 2100)
year_of days h =
    let e : (date_after days).year ≡ year_at (days + 731) + 1968 =
      ap (λ (t : Date). t.year) (date_after-date_at days) in
    (omega (arith, e), omega (arith, e, before_2100 days h))

pub gregorian_after-date_after : (days : ℕ) → days < 47482 → gregorian_after days ≡ date_after days
unfolding gregorian_after date_after
gregorian_after-date_after zero h = refl
gregorian_after-date_after (suc days) h =
    let y = year_of days (omega arith) in
    ap next_gregorian (gregorian_after-date_after days (omega arith))
    ∙ next_gregorian-next_date (date_after days) y.0 y.1

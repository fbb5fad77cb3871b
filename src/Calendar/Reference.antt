-- ===== src/Calendar/Reference.antt =====
-- The calendar day by day from 1 January 1970, with every fourth year a leap year, as it is from 1901
-- to 2099.
use common_lib.Prelude.{
  ℕ, zero, suc, ◌+◌, ◌%◌, ◌<◌, ◌≡◌, ◌==◌, ltb, if◌then◌else◌, Bool, true, not, ◌&&◌, ◌||◌, refl,
  arith, all_below, all_below_sound, ap, ◌∙◌, sym,
}
use common_lib.Calendar.Days.{day_at-lt, year_at, day_at, year_length, year_at-suc, day_at-suc}
use common_lib.Calendar.Months.{days_in_month, days_in_month-mod, walk, walk-mod, month_and_day}

pub record Date : Type 0 where
  pub year : ℕ
  pub month : ℕ
  pub day : ℕ

unfoldable pub next_date : Date → Date
unfolding days_in_month
next_date t =
    if ltb t.day (days_in_month t.year t.month)
    then record t { day = t.day + 1 }
    else if t.month == 12
    then record { year = t.year + 1; month = 1; day = 1 }
    else record { year = t.year; month = t.month + 1; day = 1 }

-- the date `days` days after 1 January 1970
unfoldable pub date_after : ℕ → Date
unfolding next_date
date_after zero = record { year = 1970; month = 1; day = 1 }
date_after (suc days) = next_date (date_after days)

abbrev pub date_at : ℕ → ℕ → Date
date_at year yday = record {
  year = year;
  month = (month_and_day year yday).0;
  day = (month_and_day year yday).1;
}

-- Whether the date of one day of a year leads to that of the next, in the same year or to its end.
follows : (length yday : ℕ) → ℕ × ℕ → ℕ × ℕ → ℕ → Bool
follows length yday (m, d) (m', d') last =
    if ltb (yday + 1) length
    then (if ltb d last then m' == m && d' == d + 1 else not (m == 12) && m' == m + 1 && d' == 1)
    else not (yday + 1 == length) || (not (ltb d last) && m == 12)

test_next : ℕ → ℕ → Bool
unfolding follows
test_next year yday =
    follows (year_length year) yday (month_and_day year yday) (month_and_day year (yday + 1))
      (days_in_month year (month_and_day year yday).0)

all_next : all_below 4 (λ year. all_below 366 (test_next year)) ≡ true
unfolding test_next month_and_day days_in_month
all_next = refl

pub month_and_day-mod : (year yday : ℕ) → month_and_day (year % 4) yday ≡ month_and_day year yday
unfolding month_and_day
month_and_day-mod year yday = walk-mod 11 year 1 yday

year_length-mod : (year : ℕ) → year_length (year % 4) ≡ year_length year
year_length-mod year = ap (λ r. if r == 0 then 366 else 365) (omega arith)

test_next-holds : (year yday : ℕ) → yday < 366 → test_next year yday ≡ true
test_next-holds year yday h =
    sym same
    ∙ all_below_sound 366 (test_next (year % 4)) yday
        (all_below_sound 4 (λ y. all_below 366 (test_next y)) (year % 4) all_next (omega arith)) h
  where
    same : test_next (year % 4) yday ≡ test_next year yday
    same =
        unfold test_next in
        rw (
          month_and_day-mod year yday,
          month_and_day-mod year (yday + 1),
          year_length-mod year,
          days_in_month-mod year (month_and_day year yday).0,
        )

first_day : (year : ℕ) → month_and_day year 0 ≡ (1, 1)
unfolding month_and_day walk days_in_month
first_day year = refl

next_date-date_at :
    (year yday : ℕ)
    → yday < year_length year
    → next_date (date_at year yday)
      ≡ (if yday + 1 == year_length year then date_at (year + 1) 0 else date_at year (yday + 1))
unfolding next_date test_next
next_date-date_at year yday h =
    ground (arith, test_next-holds year yday (ground arith), first_day (year + 1))

-- The dates of rtc_func.c's days, which it counts from 1 January 1968, 731 days earlier.
pub date_after-date_at :
    (days : ℕ) → date_after days ≡ date_at (year_at (days + 731) + 1968) (day_at (days + 731))
unfolding date_after
date_after-date_at zero = unfold month_and_day in refl
date_after-date_at (suc days) =
    ap next_date (date_after-date_at days)
    ∙ next_date-date_at (year_at (days + 731) + 1968) (day_at (days + 731))
        (ground (arith, day_at-lt (days + 731)))
    ∙ ground (arith, year_at-suc (days + 731), day_at-suc (days + 731))

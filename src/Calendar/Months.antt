-- ===== src/Calendar/Months.antt =====
-- The months of a year, by evaluation at every day of four years.
use common_lib.Prelude.{
  ℕ, zero, suc, ◌+◌, ◌-◌, ◌%◌, ◌<◌, ◌≤◌, ◌≡◌, ◌==◌, leb, ltb, if◌then◌else◌, Bool, true, false,
  ◌&&◌, ◌||◌, refl, arith, Option, none, some, all_below, all_below_sound, Option-cases, inl, inr,
  ap, ◌∙◌, sym,
}
use common_lib.Calendar.{month_start, yday_from, loop_start, find_month}

-- the calendar, with 1 for January
unfoldable pub days_in_month : ℕ → ℕ → ℕ
days_in_month year month =
    if month == 2
    then (if year % 4 == 0 then 29 else 28)
    else if month == 4 || month == 6 || month == 9 || month == 11
    then 30
    else 31

-- the month and day that lie `day` days after the first of `month`, at most `left` months on
unfoldable pub walk : ℕ → ℕ → ℕ → ℕ → ℕ × ℕ
unfolding days_in_month
walk zero year month day = (month, day + 1)
walk (suc left) year month day =
    let rest = walk left year (month + 1) (day - days_in_month year month) in
    if ltb day (days_in_month year month) then (month, day + 1) else rest

unfoldable pub month_and_day : ℕ → ℕ → ℕ × ℕ
unfolding walk
month_and_day year yday = walk 11 year 1 yday

-- Only whether a year is a leap year matters to any of them.
mod_twice : (year : ℕ) → (year % 4 % 4 == 0) ≡ (year % 4 == 0)
mod_twice year = ap (λ r. r == 0) (omega arith)

loop_start-mod : (year month : ℕ) → loop_start (year % 4) month ≡ loop_start year month
unfolding loop_start
loop_start-mod year month = ground (arith, mod_twice year)

find_month-mod :
    (m year day start : ℕ) → find_month m (year % 4) day start ≡ find_month m year day start
unfolding find_month
find_month-mod zero year day start = refl
find_month-mod (suc m) year day start = elim (Option-cases (loop_start year m)) [
  | inl none_read ↦ ground (arith, loop_start-mod year m)
  | inr (s, e) ↦ ground (arith, loop_start-mod year m, find_month-mod m year day s)
]

pub days_in_month-mod : (year month : ℕ) → days_in_month (year % 4) month ≡ days_in_month year month
unfolding days_in_month
days_in_month-mod year month = rw (mod_twice year)

pub walk-mod : (left year month day : ℕ) → walk left (year % 4) month day ≡ walk left year month day
unfolding walk
walk-mod zero year month day = refl
walk-mod (suc left) year month day =
    rw (
      days_in_month-mod year month,
      walk-mod left year (month + 1) (day - days_in_month year month),
    )

yday_from-mod :
    (start year month day : ℕ)
    → yday_from start (year % 4) month day ≡ yday_from start year month day
unfolding yday_from
yday_from-mod start year month day = rw (mod_twice year)

-- What the loop finds for a day: its month, the days before it, and the entry of DaysToMonth.
pub record Found (year day : ℕ) : Type 0 where
  pub month : ℕ
  pub start : ℕ
  pub entry : ℕ
  pub found : find_month 13 year day 366 ≡ some (month, start)
  pub read : month_start month ≡ some entry
  pub month_in : (1 ≤ month) × (month ≤ 12)
  pub start_in : (start ≤ day) × (day - start < 31)
  pub walked : month_and_day year day ≡ (month, day - start + 1)
  pub back : yday_from entry year month (day - start + 1) ≡ day

test_entry : ℕ → ℕ → ℕ → ℕ → Option ℕ → Bool
test_entry year day m s none = false
test_entry year day m s (some entry) =
    leb 1 m
    && leb m 12
    && leb s day
    && ltb (day - s) 31
    && (month_and_day year day).0 == m
    && (month_and_day year day).1 == day - s + 1
    && yday_from entry year m (day - s + 1) == day

test_found : ℕ → ℕ → Option (ℕ × ℕ) → Bool
unfolding test_entry
test_found year day none = false
test_found year day (some (m, s)) = test_entry year day m s (month_start m)

test_day : ℕ → ℕ → Bool
unfolding test_found
test_day year day =
    leb (if year % 4 == 0 then 366 else 365) day || test_found year day (find_month 13 year day 366)

all_days : all_below 4 (λ year. all_below 366 (test_day year)) ≡ true
unfolding test_day find_month loop_start month_and_day month_start yday_from
all_days = refl

Found-of_entry :
    (year day m s : ℕ) (o : Option ℕ)
    → find_month 13 year day 366 ≡ some (m, s)
    → month_start m ≡ o
    → test_entry year day m s o ≡ true
    → Found year day
unfolding test_entry
Found-of_entry year day m s none e r t = absurd (ground arith)
Found-of_entry year day m s (some entry) e r t = record {
  month = m;
  start = s;
  entry = entry;
  found = e;
  read = r;
  month_in = ground arith;
  start_in = ground arith;
  walked = ground arith;
  back = ground arith;
}

Found-of_test :
    (year day : ℕ) (o : Option (ℕ × ℕ))
    → find_month 13 year day 366 ≡ o
    → test_found year day o ≡ true
    → Found year day
unfolding test_found
Found-of_test year day none e t = absurd (ground arith)
Found-of_test year day (some (m, s)) e t = Found-of_entry year day m s (month_start m) e refl t

Found-mod : (year day : ℕ) → Found (year % 4) day → Found year day
unfolding month_and_day
Found-mod year day f = record {
  month = f.month;
  start = f.start;
  entry = f.entry;
  found = sym (find_month-mod 13 year day 366) ∙ f.found;
  read = f.read;
  month_in = f.month_in;
  start_in = f.start_in;
  walked = sym (walk-mod 11 year 1 day) ∙ f.walked;
  back = sym (yday_from-mod f.entry year f.month (day - f.start + 1)) ∙ f.back;
}

day_tested : (year day : ℕ) → year < 4 → day < 366 → test_day year day ≡ true
day_tested year day hy hd =
    all_below_sound 366 (test_day year) day
      (all_below_sound 4 (λ y. all_below 366 (test_day y)) year all_days hy) hd

-- Every day of a year is found.
pub day_found : (year day : ℕ) → day < (if year % 4 == 0 then 366 else 365) → Found year day
unfolding test_day
day_found year day h = Found-mod year day (
    Found-of_test (year % 4) day (find_month 13 (year % 4) day 366) refl
      (ground (arith, day_tested (year % 4) day (omega arith) (ground arith), mod_twice year)))

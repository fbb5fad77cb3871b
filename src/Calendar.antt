-- ===== src/Calendar.antt =====
-- rtc/rtc_func.c. `unsigned int` and `unsigned long` have 32 bits, `unsigned char` has 8.
pub mod Days
pub mod Months
pub mod Reference
pub mod Gregorian
pub mod Laws
mod Tests
use common_lib.Prelude.{
  ℕ, zero, suc, ◌+◌, ◌-◌, ◌*◌, ◌/◌, ◌%◌, ◌==◌, leb, ltb, if◌then◌else◌, Bool, ◌&&◌, Option, none,
  some, List, [], ◌∷◌, get_elem?, add32, sub32, mul32,
}

-- the fields that rtc_to_binary reads and rtc_from_binary writes
pub record RtcData : Type 0 where
  pub month : ℕ
  pub day : ℕ
  pub hours : ℕ
  pub minutes : ℕ
  pub seconds : ℕ
  pub wday : ℕ
  pub year : ℕ
  pub yday : ℕ

abbrev pub days_to_month : List ℕ
days_to_month = 0 ∷ 31 ∷ 59 ∷ 90 ∷ 120 ∷ 151 ∷ 181 ∷ 212 ∷ 243 ∷ 273 ∷ 304 ∷ 334 ∷ 365 ∷ []

-- `DaysToMonth[month - 1]`; `none` is a read outside of the array.
unfoldable pub month_start : ℕ → Option ℕ
month_start zero = none
month_start (suc m) = get_elem? days_to_month m

-- `yday` once the array is read, for a year with `year & 3`, which is `year % 4`
unfoldable pub yday_from : ℕ → ℕ → ℕ → ℕ → ℕ
unfolding add32 sub32
yday_from start year month day =
    let yday = sub32 (add32 start day) 1 in
    if ltb 2 month && year % 4 == 0 then add32 yday 1 else yday

unfoldable pub rtc_get_yday : ℕ → ℕ → ℕ → Option ℕ
unfolding month_start yday_from
rtc_get_yday year month day = elim (month_start month) [
  | none ↦ none
  | some start ↦ some (yday_from start year month day)
]

unfoldable pub days_since_1970 : ℕ → ℕ → ℕ
unfolding add32 sub32 mul32
days_since_1970 year yday = add32 (add32 (mul32 365 (sub32 year 1970)) yday) (sub32 year 1969 / 4)

unfoldable pub binary_of : RtcData → ℕ → ℕ
unfolding add32 mul32
binary_of d iday =
    add32 (add32 d.seconds (mul32 60 d.minutes)) (mul32 3600 (add32 d.hours (mul32 24 iday)))

-- the rest of rtc_to_binary once `yday` is known
unfoldable pub with_yday : RtcData → Option ℕ → Option ℕ
unfolding days_since_1970 binary_of
with_yday d none = none
with_yday d (some yday) = some (binary_of d (days_since_1970 d.year yday))

unfoldable pub rtc_to_binary : RtcData → Option ℕ
unfolding rtc_get_yday with_yday
rtc_to_binary d = with_yday d (rtc_get_yday d.year d.month d.day)

-- `days_to_month` in the loop of rtc_from_binary, for a month that is looked at
unfoldable pub loop_start : ℕ → ℕ → Option ℕ
unfolding month_start
loop_start year month = elim (month_start month) [
  | none ↦ none
  | some start ↦ some (if ltb 2 month && year % 4 == 0 then start + 1 else start)
]

-- The loop, which goes down from `month`: the month found and the days before it. `none` is a read
-- outside of the array.
unfoldable pub find_month : ℕ → ℕ → ℕ → ℕ → Option (ℕ × ℕ)
find_month zero year day start = if ltb day start then none else some (0, start)
find_month (suc m) year day start =
    let earlier : Option (ℕ × ℕ) = elim (loop_start year m) [
      | none ↦ none
      | some s ↦ find_month m year day s
    ] in
    if ltb day start then earlier else some (suc m, start)

-- `leap_year_periods`, `whole_years` and `days_since_first_of_year`, of whole_days_since_1968
unfoldable pub leap_year_periods : ℕ → ℕ
leap_year_periods days = if leb 60 (days % 1461) then days / 1461 + 1 else days / 1461

unfoldable pub whole_years : ℕ → ℕ
unfolding leap_year_periods sub32
whole_years days = sub32 days (leap_year_periods days) / 365

unfoldable pub day_of_year : ℕ → ℕ
unfolding leap_year_periods whole_years add32 sub32 mul32
day_of_year days =
    let day = sub32 (sub32 days (mul32 (whole_years days) 365)) (leap_year_periods days) in
    if leb (days % 1461) 365 && leb 60 (days % 1461) then add32 day 1 else day

-- `whole_days`
unfoldable pub days_of : ℕ → ℕ
days_of binary = binary / 60 / 60 / 24

-- What rtc_from_binary writes once the month is found; the loop ends with `start <= yday`.
unfoldable pub fill : ℕ → ℕ → ℕ → ℕ → ℕ → RtcData
unfolding days_of sub32 mul32
fill binary year yday month start = record {
  month = month - 1;
  day = (yday - start + 1) % 256;
  hours = sub32 (binary / 60 / 60) (mul32 24 (days_of binary)) % 256;
  minutes = sub32 (binary / 60) (mul32 60 (binary / 60 / 60)) % 256;
  seconds = sub32 binary (mul32 60 (binary / 60)) % 256;
  wday = (days_of binary + 4) % 7;
  year = year + 1900;
  yday = yday;
}

unfoldable pub fill_found : ℕ → ℕ → ℕ → Option (ℕ × ℕ) → Option RtcData
unfolding fill
fill_found binary year yday none = none
fill_found binary year yday (some (month, start)) = some (fill binary year yday month start)

-- the search of the month, and what is written after it
unfoldable pub search_month : ℕ → ℕ → ℕ → Option RtcData
unfolding find_month fill_found
search_month binary year yday = fill_found binary year yday (find_month 13 year yday 366)

unfoldable pub rtc_from_binary : ℕ → Option RtcData
unfolding days_of add32 search_month
rtc_from_binary binary =
    let since_1968 = add32 (days_of binary) (365 + 366) in
    search_month binary (whole_years since_1968 + 68) (day_of_year since_1968)

-- `data` in rtc_get_wday before the call
abbrev pub midnight : ℕ → ℕ → ℕ → RtcData
midnight year month day = record {
  month = month;
  day = day;
  hours = 0;
  minutes = 0;
  seconds = 0;
  wday = 0;
  year = year;
  yday = 0;
}

unfoldable pub wday_of : Option RtcData → Option ℕ
wday_of none = none
wday_of (some d) = some d.wday

unfoldable pub wday_at : Option ℕ → Option ℕ
unfolding rtc_from_binary wday_of
wday_at none = none
wday_at (some binary) = wday_of (rtc_from_binary binary)

unfoldable pub rtc_get_wday : ℕ → ℕ → ℕ → Option ℕ
unfolding rtc_to_binary wday_at
rtc_get_wday year month day = wday_at (rtc_to_binary (midnight year month day))

-- ===== src/Calendar/Laws.antt =====
-- rtc_from_binary against the calendar, and rtc_to_binary as its inverse.
use common_lib.Prelude.{
  ℕ, ◌+◌, ◌-◌, ◌*◌, ◌/◌, ◌%◌, ◌<◌, ◌≡◌, refl, arith, Option, none, some, ap, ap₂, ◌∙◌, sym,
  word_mod, add32, sub32, mul32,
}
use common_lib.Calendar.{
  RtcData, whole_years, day_of_year, yday_from, rtc_get_yday, days_since_1970, binary_of,
  rtc_to_binary, rtc_from_binary, rtc_get_wday, fill, fill_found, with_yday, midnight, wday_at,
  wday_of, search_month, days_of,
}
use common_lib.Calendar.Days.{
  year_at, day_at, day_at-lt, whole_years-eq, day_of_year-eq, days_since_1970-year_at,
}
use common_lib.Calendar.Months.{Found, day_found, month_and_day}
use common_lib.Calendar.Gregorian.{gregorian_after, gregorian_after-date_after}
use common_lib.Calendar.Reference.{Date, date_after, date_after-date_at, month_and_day-mod}

-- The days since 1968, the year since 1900 and the day in it.
abbrev since_1968 : ℕ → ℕ
since_1968 binary = binary / 86400 + 731

abbrev year_1900 : ℕ → ℕ
year_1900 binary = year_at (since_1968 binary) + 68

abbrev in_year : ℕ → ℕ
in_year binary = day_at (since_1968 binary)

found_at : (binary : ℕ) → Found (year_1900 binary) (in_year binary)
found_at binary =
    day_found (year_1900 binary) (in_year binary) (ground (arith, day_at-lt (since_1968 binary)))

-- what rtc_from_binary writes
pub unpacked : ℕ → RtcData
unfolding found_at
unpacked binary = record {
  month = (found_at binary).month - 1;
  day = in_year binary - (found_at binary).start + 1;
  hours = binary / 3600 % 24;
  minutes = binary / 60 % 60;
  seconds = binary % 60;
  wday = (binary / 86400 + 4) % 7;
  year = year_1900 binary + 1900;
  yday = in_year binary;
}

module _ (binary : ℕ) (small : binary < word_mod) where
  day_count : add32 (days_of binary) (365 + 366) ≡ since_1968 binary
  unfolding days_of add32
  day_count = omega arith

  years_found : whole_years (add32 (days_of binary) (365 + 366)) ≡ year_at (since_1968 binary)
  years_found = ap whole_years day_count ∙ whole_years-eq (since_1968 binary) (omega arith)

  yday_found : day_of_year (add32 (days_of binary) (365 + 366)) ≡ in_year binary
  yday_found = ap day_of_year day_count ∙ day_of_year-eq (since_1968 binary) (omega arith)

  fill-unpacked :
      fill binary
        (year_1900 binary)
        (in_year binary)
        (found_at binary).month
        (found_at binary).start
      ≡ unpacked binary
  unfolding fill unpacked days_of sub32 mul32
  fill-unpacked = ground (arith, (found_at binary).start_in)

  -- The month is found for every `binary`.
  pub rtc_from_binary-unpacked : rtc_from_binary binary ≡ some (unpacked binary)
  rtc_from_binary-unpacked =
      let searched : rtc_from_binary binary
          ≡ search_month binary (year_1900 binary) (in_year binary) =
        unfold rtc_from_binary in
        ap₂ (λ y d. search_month binary (y + 68) d) years_found yday_found in
      let found : search_month binary (year_1900 binary) (in_year binary)
          ≡ fill_found binary (year_1900 binary) (in_year binary)
              (some ((found_at binary).month, (found_at binary).start)) =
        unfold search_month in
        ap (fill_found binary (year_1900 binary) (in_year binary)) (found_at binary).found in
      let filled : fill_found binary (year_1900 binary) (in_year binary)
            (some ((found_at binary).month, (found_at binary).start))
          ≡ some (unpacked binary) =
        unfold fill_found in ap some fill-unpacked in
      searched ∙ found ∙ filled

  yday_read :
      rtc_get_yday
        (year_1900 binary + 1900)
        (found_at binary).month
        (in_year binary - (found_at binary).start + 1)
      ≡ some (in_year binary)
  unfolding rtc_get_yday yday_from
  yday_read = ground (arith, (found_at binary).read, (found_at binary).back)

  counted :
      binary_of (unpacked binary) (days_since_1970 (year_1900 binary + 1900) (in_year binary))
      ≡ binary
  unfolding binary_of unpacked days_since_1970 add32 mul32
  counted = omega (arith, days_since_1970-year_at (since_1968 binary) (omega arith) (omega arith))

  -- what rtc_to_binary wants: months from 1, where rtc_from_binary writes them from 0
  pub next_month : RtcData
  next_month = record (unpacked binary) { month = (unpacked binary).month + 1 }

  month_back : (unpacked binary).month + 1 ≡ (found_at binary).month
  unfolding unpacked
  month_back = omega (arith, (found_at binary).month_in)

  to_binary-next_month : rtc_to_binary next_month ≡ some binary
  to_binary-next_month =
      let read : rtc_to_binary next_month
          ≡ with_yday next_month (
              rtc_get_yday (year_1900 binary + 1900) (found_at binary).month
                (in_year binary - (found_at binary).start + 1)) =
        unfold rtc_to_binary next_month unpacked in
        ap
          (λ m. with_yday next_month (
            rtc_get_yday (year_1900 binary + 1900) m
              (in_year binary - (found_at binary).start + 1)))
          month_back in
      let known : with_yday next_month (some (in_year binary)) ≡ some binary =
        unfold with_yday next_month unpacked binary_of in ap some counted in
      read ∙ ap (with_yday next_month) yday_read ∙ known

  same_walk :
      month_and_day (year_at (since_1968 binary) + 1968) (in_year binary)
      ≡ ((found_at binary).month, in_year binary - (found_at binary).start + 1)
  same_walk =
      sym (month_and_day-mod (year_at (since_1968 binary) + 1968) (in_year binary))
      ∙ ap (λ y. month_and_day y (in_year binary)) (omega arith)
      ∙ month_and_day-mod (year_1900 binary) (in_year binary)
      ∙ (found_at binary).walked

  pub date-unpacked :
      record {
        year = (unpacked binary).year;
        month = (unpacked binary).month + 1;
        day = (unpacked binary).day;
      }
      ≡ date_after (binary / 86400)
  unfolding unpacked
  date-unpacked =
      ground (arith, date_after-date_at (binary / 86400), same_walk, (found_at binary).month_in)

-- For every 32-bit time, rtc_from_binary returns, and rtc_to_binary gives the time back from what it
-- writes once the month is counted from 1.
pub rtc_to_binary-rtc_from_binary :
    (binary : ℕ)
    → binary < word_mod
    → (d : RtcData) × (rtc_from_binary binary ≡ some d)
      × (rtc_to_binary (record d { month = d.month + 1 }) ≡ some binary)
unfolding next_month
rtc_to_binary-rtc_from_binary binary small =
    (unpacked binary, rtc_from_binary-unpacked binary small, to_binary-next_month binary small)

-- For every 32-bit time, rtc_from_binary writes the date that lies so many days after 1 January 1970
-- when every fourth year is a leap year, 2100 among them, with the month counted from 0, the time of
-- that day, and the day of the week, 1 January 1970 being a Thursday.
rtc_from_binary-date_after :
    (binary : ℕ)
    → binary < word_mod
    → (d : RtcData) × (rtc_from_binary binary ≡ some d)
      × (record { year = d.year; month = d.month + 1; day = d.day } ≡ date_after (binary / 86400))
      × (d.hours * 3600 + d.minutes * 60 + d.seconds ≡ binary % 86400)
      × (d.minutes < 60)
      × (d.seconds < 60)
      × (d.wday ≡ (4 + binary / 86400) % 7)
unfolding unpacked
rtc_from_binary-date_after binary small = (
  unpacked binary,
  rtc_from_binary-unpacked binary small,
  date-unpacked binary small,
  omega arith,
  omega arith,
  omega arith,
  omega arith,
)

-- For every time before 1 January 2100, rtc_from_binary writes the Gregorian date that lies so many
-- days after 1 January 1970, with the month counted from 0, the time of that day, and the day of the
-- week, 1 January 1970 being a Thursday.
pub rtc_from_binary-gregorian_after :
    (binary : ℕ)
    → binary < 4102444800
    → (d : RtcData) × (rtc_from_binary binary ≡ some d)
      × (record { year = d.year; month = d.month + 1; day = d.day }
          ≡ gregorian_after (binary / 86400))
      × (d.hours * 3600 + d.minutes * 60 + d.seconds ≡ binary % 86400)
      × (d.minutes < 60)
      × (d.seconds < 60)
      × (d.wday ≡ (4 + binary / 86400) % 7)
rtc_from_binary-gregorian_after binary small =
    let (d, e, date, clock, minutes, seconds, wday) =
      rtc_from_binary-date_after binary (omega arith) in
    (
      d,
      e,
      date ∙ sym (gregorian_after-date_after (binary / 86400) (omega arith)),
      clock,
      minutes,
      seconds,
      wday,
    )

to_binary-of_zero : (d : RtcData) → d.month ≡ 0 → rtc_to_binary d ≡ none
unfolding rtc_to_binary
to_binary-of_zero d e = ap (λ m. with_yday d (rtc_get_yday d.year m d.day)) e

-- In January `month` is 0, and rtc_to_binary, given it as it is, reads in front of DaysToMonth.
rtc_to_binary-of_january :
    (binary : ℕ)
    → binary < word_mod
    → (date_after (binary / 86400)).month ≡ 1
    → (d : RtcData) × (rtc_from_binary binary ≡ some d) × (rtc_to_binary d ≡ none)
rtc_to_binary-of_january binary small january =
    (unpacked binary, rtc_from_binary-unpacked binary small, read_before)
  where
    first : (unpacked binary).month ≡ 0
    first = omega (arith, ap (λ (t : Date). t.month) (date-unpacked binary small))

    read_before : rtc_to_binary (unpacked binary) ≡ none
    read_before = to_binary-of_zero (unpacked binary) first

with_yday-midnight :
    (d : RtcData) (o : Option ℕ)
    → d.hours ≡ 0
    → d.minutes ≡ 0
    → d.seconds ≡ 0
    → with_yday (midnight d.year d.month d.day) o ≡ with_yday d o
unfolding with_yday
with_yday-midnight d none h m s = refl
with_yday-midnight d (some yday) h m s = unfold binary_of in ground arith

to_binary-of_midnight :
    (d : RtcData)
    → d.hours ≡ 0
    → d.minutes ≡ 0
    → d.seconds ≡ 0
    → rtc_to_binary (midnight d.year d.month d.day) ≡ rtc_to_binary d
unfolding rtc_to_binary
to_binary-of_midnight d h m s = with_yday-midnight d (rtc_get_yday d.year d.month d.day) h m s

-- Midnight of a date is its number of days.
to_binary-midnight :
    (days : ℕ)
    → days < 49710
    → rtc_to_binary (midnight (date_after days).year (date_after days).month (date_after days).day)
      ≡ some (days * 86400)
unfolding next_month unpacked
to_binary-midnight days h =
    ap (λ (t : Date). rtc_to_binary (midnight t.year t.month t.day)) (sym same_date)
    ∙ to_binary-of_midnight (next_month (days * 86400) (omega arith)) no_hours no_minutes no_seconds
    ∙ to_binary-next_month (days * 86400) (omega arith)
  where
    no_hours : (next_month (days * 86400) (omega arith)).hours ≡ 0
    no_hours = omega arith

    no_minutes : (next_month (days * 86400) (omega arith)).minutes ≡ 0
    no_minutes = omega arith

    no_seconds : (next_month (days * 86400) (omega arith)).seconds ≡ 0
    no_seconds = omega arith

    same_date :
        record {
          year = (unpacked (days * 86400)).year;
          month = (unpacked (days * 86400)).month + 1;
          day = (unpacked (days * 86400)).day;
        }
        ≡ date_after days
    same_date = date-unpacked (days * 86400) (omega arith) ∙ ap date_after (omega arith)

-- rtc_get_wday gives the day of the week, 0 for Sunday, of every date from 1 January 1970 that a 32-bit
-- time can reach when every fourth year is a leap year, 2100 among them.
rtc_get_wday-date_after :
    (days : ℕ)
    → days < 49710
    → rtc_get_wday (date_after days).year (date_after days).month (date_after days).day
      ≡ some ((4 + days) % 7)
unfolding rtc_get_wday wday_at
rtc_get_wday-date_after days h =
    ap wday_at (to_binary-midnight days h)
    ∙ ap wday_of (rtc_from_binary-unpacked (days * 86400) (omega arith))
    ∙ (unfold wday_of unpacked in ap some (omega arith))

-- rtc_get_wday gives the day of the week, 0 for Sunday, of every Gregorian date from 1 January 1970 to
-- 31 December 2099.
pub rtc_get_wday-gregorian_after :
    (days : ℕ)
    → days < 47482
    → rtc_get_wday
        (gregorian_after days).year
        (gregorian_after days).month
        (gregorian_after days).day
      ≡ some ((4 + days) % 7)
rtc_get_wday-gregorian_after days h =
    ap (λ (t : Date). rtc_get_wday t.year t.month t.day) (gregorian_after-date_after days h)
    ∙ rtc_get_wday-date_after days (omega arith)

-- ===== src/Calendar/Tests.antt =====
-- 1 March 1972, after a leap day, and the times that rtc_func.c gives for it.
use common_lib.Prelude.{ℕ, ◌+◌, ◌*◌, ◌/◌, ◌%◌, ◌<◌, ◌≡◌, refl, arith, some}
use common_lib.Calendar.{
  RtcData, day_of_year, loop_start, rtc_from_binary, rtc_to_binary, rtc_get_wday,
}
use common_lib.Calendar.Gregorian.{gregorian_after}
use common_lib.Calendar.Reference.{date_after}
use common_lib.Calendar.Laws.{
  rtc_to_binary-rtc_from_binary, rtc_from_binary-gregorian_after, rtc_get_wday-gregorian_after,
}

-- 12:30:15
abbrev noon : ℕ
noon = 790 * 86400 + 45015

from_binary_runs :
    rtc_from_binary noon
    ≡ some (record {
      month = 2;
      day = 1;
      hours = 12;
      minutes = 30;
      seconds = 15;
      wday = 3;
      year = 1972;
      yday = 60;
    })
unfolding rtc_from_binary day_of_year loop_start
from_binary_runs = refl

date_after_runs : date_after 790 ≡ record { year = 1972; month = 3; day = 1 }
unfolding date_after
date_after_runs = refl

rtc_to_binary-rtc_from_binary_example :
    (d : RtcData) × (rtc_from_binary noon ≡ some d)
    × (rtc_to_binary (record d { month = d.month + 1 }) ≡ some noon)
rtc_to_binary-rtc_from_binary_example = rtc_to_binary-rtc_from_binary noon (omega arith)

rtc_from_binary-gregorian_after_example :
    (d : RtcData) × (rtc_from_binary noon ≡ some d)
    × (record { year = d.year; month = d.month + 1; day = d.day } ≡ gregorian_after (noon / 86400))
    × (d.hours * 3600 + d.minutes * 60 + d.seconds ≡ noon % 86400)
    × (d.minutes < 60)
    × (d.seconds < 60)
    × (d.wday ≡ (4 + noon / 86400) % 7)
rtc_from_binary-gregorian_after_example = rtc_from_binary-gregorian_after noon (omega arith)

rtc_get_wday-gregorian_after_example :
    rtc_get_wday (gregorian_after 790).year (gregorian_after 790).month (gregorian_after 790).day
    ≡ some (794 % 7)
rtc_get_wday-gregorian_after_example = rtc_get_wday-gregorian_after 790 (omega arith)

-- ===== src/Tests/Times.antt =====
-- Runs of the time functions.
use maestro_core.Base.{
  ◌-◌, ◌%◌, pos, negsuc, ◌+ℤ◌, ◌-ℤ◌, ◌*ℤ◌, quot, true, some, none, [], Bytes, codes, ◌≡◌, refl,
  arith,
}
use maestro_core.CString.{skip, isspace, isdigit}
use maestro_core.Memory.{Mem}
use maestro_core.Numbers.{decimal, print, digit_char, sign}
use maestro_core.TimeUtils.{timegm, days_of, year_days, month_days, seconds_of, int, sum, is_leap}
use maestro_core.TimeUtils.Calendar.{
  Date, IsDate, tm_of, epoch, in_int, day_number, days_of_years, leap_year,
}
use maestro_core.TimeUtils.Calendar.Seconds.{timegm-epoch}
use maestro_core.StringUtils.{strdup}
use maestro_core.TimeUtils.Iso.{
  scan_digits, scan_int, scan_char, scan_any, scan_stamp, scan_zone, stamp_tm, Stamp, zoned,
  parse_iso_datetime, parse_iso_full_datetime, iso_datetime, iso_full_datetime, print_minute,
  print_day, print_zone, padded, zeros,
}
use maestro_core.TimeUtils.Iso.RoundTrip.{
  parse_iso_datetime-iso_datetime, parse_iso_datetime-month_over,
}
use maestro_core.TimeUtils.Now.{
  Shows, epoch_now_day, epoch_now_hour, epoch_now_min, epoch_now-begins,
}

abbrev plenty : Mem
plenty = record { grants = λ _. true; asked = 0; live = 0 }

-- 2000-03-01 12:34:56
abbrev leap_march : Date
leap_march = record { year = 30; month = 2; day = 0; hour = 12; minute = 34; second = 56 }

leap_march-IsDate : IsDate leap_march
leap_march-IsDate = record {
  year_in = omega arith;
  month_in = omega arith;
  day_in = omega arith;
  hour_in = omega arith;
  minute_in = omega arith;
  second_in = omega arith;
}

leap_march-epoch : epoch leap_march ≡ 951914096
unfolding epoch day_number days_of_years leap_year sum
leap_march-epoch = refl

timegm-epoch_example : timegm (tm_of leap_march) ≡ in_int (epoch leap_march)
timegm-epoch_example = timegm-epoch leap_march leap_march-IsDate

-- The first second that an `int` cannot count.
abbrev too_late : Date
too_late = record { year = 68; month = 0; day = 18; hour = 3; minute = 14; second = 8 }

too_late_overflows : timegm (tm_of too_late) ≡ none
unfolding timegm tm_of days_of year_days month_days seconds_of int sum is_leap ◌+ℤ◌ ◌-ℤ◌ ◌*ℤ◌ quot
too_late_overflows = refl

parse_iso_datetime-iso_datetime_example :
    (text : Bytes) × ((iso_datetime (some (tm_of leap_march)) plenty).0 ≡ some text)
    × (parse_iso_datetime text ≡ in_int (epoch (record leap_march { second = 0 })))
parse_iso_datetime-iso_datetime_example =
    parse_iso_datetime-iso_datetime leap_march leap_march-IsDate plenty refl

abbrev month_99 : Stamp
month_99 = record {
  year = pos 2024;
  month = pos 99;
  day = pos 1;
  hour = pos 0;
  minute = pos 0;
  rest = [];
}

month_99_scanned : scan_stamp (codes "2024-99-01T00:00") ≡ some month_99
unfolding scan_stamp scan_int scan_digits scan_char skip isspace isdigit sign
month_99_scanned = refl

parse_iso_datetime-month_over_run : parse_iso_datetime (codes "2024-99-01T00:00") ≡ none
parse_iso_datetime-month_over_run =
    parse_iso_datetime-month_over (codes "2024-99-01T00:00") month_99 99 month_99_scanned refl
      (omega arith)

-- The offset is printed, but the hour is not moved by it: the text stands for an earlier time.
offset_not_applied :
    (iso_full_datetime (some (tm_of leap_march)) (pos 2) plenty).0
    ≡ some (codes "2000-03-01T12:34:56+02:00")
unfolding iso_full_datetime tm_of strdup print_minute print_day print_zone padded zeros decimal
    print digit_char ◌+ℤ◌
offset_not_applied = refl

two_hours_early :
    parse_iso_full_datetime (codes "2000-03-01T12:34:56+02:00") ≡ some (pos (951914096 - 7200))
unfolding parse_iso_full_datetime scan_stamp scan_zone scan_int scan_digits scan_char scan_any skip
    isspace isdigit sign zoned stamp_tm timegm days_of year_days month_days seconds_of int sum
    is_leap ◌+ℤ◌ ◌-ℤ◌ ◌*ℤ◌ quot
two_hours_early = refl

-- A negative offset is printed with two signs.
two_signs :
    (iso_full_datetime (some (tm_of leap_march)) (negsuc 1) plenty).0
    ≡ some (codes "2000-03-01T12:34:56--2:00")
unfolding iso_full_datetime tm_of strdup print_minute print_day print_zone padded zeros decimal
    print digit_char ◌+ℤ◌
two_signs = refl

leap_march_shown : Shows 951914096 leap_march
leap_march_shown = record { date = leap_march-IsDate; same = leap_march-epoch; plain = omega arith }

epoch_now-begins_run :
    (epoch_now_day (tm_of leap_march) ≡ some (pos (951914096 - 951914096 % 86400)))
    × (epoch_now_hour (tm_of leap_march) ≡ some (pos (951914096 - 951914096 % 3600)))
    × (epoch_now_min (tm_of leap_march) ≡ some (pos (951914096 - 951914096 % 60)))
epoch_now-begins_run = epoch_now-begins 951914096 leap_march leap_march_shown (omega arith)

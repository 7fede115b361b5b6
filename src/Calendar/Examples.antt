-- ===== src/Calendar/Examples.antt =====
-- Calendars set, written and read over a sample date library, and the theorems at concrete values.
use xmlbeansxx.Prelude.{
  ℕ, Text, false, zero, suc, ◌≡◌, refl, Option, none, some, [], ◌++◌, true, ℤ, pos, negsuc, ◌+ℤ◌,
  codes, arith,
}
use xmlbeansxx.TextUtils.{is_white, skip_white, collapse, is_digit, are_digits}
use xmlbeansxx.Fields.{
  Result, boost_exception, ok, calendar_exception, out_of_range, no_flags, digits, int_to_text,
  pad_zeros, scan_digits, read_int, get_int,
}
use xmlbeansxx.Calendar.{
  Boost, Calendar, Tm, returns, throws, new_calendar, get_year, get_month, get_day, get_hour,
  get_minutes, get_seconds, get_frac_sec, has_full_date_info, has_full_time_info, fix_tm, set_year,
  set_month, set_day, set_hour, set_minutes, set_seconds, set_frac_sec, is_dst_on, set_gmt_off,
}
use xmlbeansxx.Calendar.Zone.{
  index_of, last_index_of, find, rfind, substr_at, find_sign, cut_zone, read_zone, store_zone,
  time_zone_to_string,
}
use xmlbeansxx.Calendar.Reading.{
  with_zone, set_g_year, set_g_month, set_g_day, set_month_day, set_year_month, erase_all, set_date,
  cut_fraction, read_fraction, set_time, of_text,
}
use xmlbeansxx.Calendar.Reading.Zones.{with_zone-time_zone_to_string}
use xmlbeansxx.Calendar.Reading.Refused.{set_g_year-no_zone}
use xmlbeansxx.Calendar.Printing.{
  to_string, to_xsd_time, to_xsd_year_month, to_xsd_year, to_xsd_day, to_xsd_month,
  to_xsd_month_day,
}
use xmlbeansxx.Calendar.Apply.{
  PosixTime, maximum_day_in_month, carry_months, new_month_year, of_ptime, of_fields,
  apply_duration, plus_duration,
}
use xmlbeansxx.Calendar.Apply.Months.{Carried, carry_months-Carried}
use xmlbeansxx.Duration.{Duration, get_months, get_years}

operations : Unit {0}
unfolding new_calendar get_year get_month get_day get_hour get_minutes get_seconds get_frac_sec
    has_full_date_info has_full_time_info fix_tm set_year set_month set_day set_hour set_minutes
    set_seconds set_frac_sec is_dst_on set_gmt_off index_of last_index_of find rfind substr_at
    find_sign cut_zone read_zone time_zone_to_string set_g_year set_g_month set_g_day set_month_day
    set_year_month erase_all set_date cut_fraction read_fraction set_time of_text to_xsd_time
    to_xsd_year_month to_xsd_year to_xsd_day to_xsd_month to_xsd_month_day is_white skip_white
    collapse is_digit are_digits digits int_to_text pad_zeros scan_digits read_int get_int
operations = tt

abbrev zero_tm : Tm
zero_tm = record {
  tm_sec = pos 0;
  tm_min = pos 0;
  tm_hour = pos 0;
  tm_mday = pos 0;
  tm_mon = pos 0;
  tm_year = pos 0;
  tm_wday = pos 0;
  tm_yday = pos 0;
  tm_isdst = negsuc 0;
}

-- Every date with a positive month is accepted, and no text is read.
abbrev sample_tm : ℤ → ℤ → ℤ → Option Tm
sample_tm y (pos zero) d = none
sample_tm y (pos (suc m)) d =
    some record zero_tm { tm_year = y +ℤ negsuc 1899; tm_mon = pos m; tm_mday = d }
sample_tm y (negsuc m) d = none

abbrev sample : Boost
sample = record {
  tm_of_date = sample_tm;
  iso_date = λ y m d. none;
  date_of_text = λ t. none;
  time_of_text = λ t. none;
  duration_of_text = λ t. none;
}

or_zero : Option Tm → Tm
or_zero none = zero_tm
or_zero (some t) = t

abbrev fresh : Calendar
fresh = record {
  cal_tm = zero_tm;
  frac_sec = pos 0;
  gmt_off_hours = pos 0;
  gmt_off_minutes = pos 0;
  flags = no_flags;
}

-- A calendar with a zone five and a half hours west.
abbrev west : Calendar
west = record fresh {
  cal_tm = record zero_tm { tm_isdst = pos 0; tm_mday = pos 25 };
  gmt_off_hours = negsuc 4;
  gmt_off_minutes = negsuc 29;
  flags = record no_flags { timezone = true; day = true };
}

abbrev half_west : Calendar
half_west = record west { gmt_off_hours = pos 0 }

west_text : to_xsd_day [] west ≡ codes "---25-05:30"
unfolding operations
west_text = refl

west_read : (set_g_day sample (codes "---25-05:30") fresh).calendar ≡ west
unfolding operations
west_read = refl

-- Half an hour west has no hours to carry the sign.
half_west_text : time_zone_to_string half_west ≡ codes "+00:-30"
unfolding operations
half_west_text = refl

half_west_read : (set_g_day sample (codes "---25-00:30") fresh).calendar ≡ half_west
unfolding operations
half_west_read = refl

year_month_read : (set_year_month sample (codes "2004-12") fresh).returned ≡ ok tt
unfolding operations
year_month_read = refl

-- March 5 is written with one digit each, and the day's text then begins inside the month's.
month_day_refused : (set_month_day sample (codes "--3-5") fresh).returned ≡ calendar_exception
unfolding operations
month_day_refused = refl

-- The zone of a month is looked for where the one of a month and a day would stand.
month_west_refused : (set_g_month sample (codes "--12-05:00") fresh).returned ≡ calendar_exception
unfolding operations
month_west_refused = refl

set_g_year-no_zone_example : set_g_year sample (codes "2004") fresh ≡ throws out_of_range fresh
unfolding is_white skip_white collapse
set_g_year-no_zone_example =
    set_g_year-no_zone sample (codes "2004") fresh
      (omega arith, (omega arith, (omega arith, (omega arith, tt))))
      (omega arith, (omega arith, (omega arith, (omega arith, tt))))
      (omega arith, (omega arith, (omega arith, (omega arith, tt)))) (omega arith)

with_zone-time_zone_to_string_example :
    with_zone
      (find_sign true (codes "---25" ++ time_zone_to_string west))
      (codes "---25" ++ time_zone_to_string west)
      fresh
      (λ t c. returns c)
    ≡ returns (store_zone (negsuc 4) (negsuc 29) fresh)
with_zone-time_zone_to_string_example =
    with_zone-time_zone_to_string west true (codes "---25") fresh (λ t c. returns c) refl refl
      (omega arith, omega arith) (λ e. refl)
      (omega arith, (omega arith, (omega arith, (omega arith, (omega arith, tt)))))
      (omega arith, (omega arith, (omega arith, (omega arith, (omega arith, tt))))) (omega arith)

abbrev december : Calendar
december = record fresh {
  cal_tm = record zero_tm { tm_year = pos 104; tm_mon = pos 11; tm_mday = pos 5 };
  flags = record no_flags { year = true; month = true; day = true };
}

sums : Unit {0}
unfolding carry_months new_month_year of_ptime of_fields apply_duration plus_duration to_string
    operations
sums = tt

-- Times that stand still on the first of January 1978.
abbrev still : PosixTime ℕ
still = record {
  ptime = λ y m d h mi s f. some 0;
  plus_time = λ t h m s f. some t;
  minus_time = λ t h m s f. some t;
  plus_days = λ t d. some t;
  minus_days = λ t d. some t;
  is_special = λ t. false;
  year_of = λ t. 1978;
  month_of = λ t. 1;
  day_of = λ t. 1;
  to_tm = λ t. zero_tm;
  fractional_seconds = λ t. 0;
}

-- Times that stand still on the fifth of December 2004.
abbrev still_december : PosixTime ℕ
still_december = record still {
  year_of = λ t. 2004;
  month_of = λ t. 12;
  day_of = λ t. 5;
  to_tm = λ t. december.cal_tm;
}

abbrev no_time : Duration
no_time = record {
  years = pos 0;
  months = pos 0;
  days = pos 0;
  hours = pos 0;
  minutes = pos 0;
  seconds = pos 0;
  frac_sec = pos 0;
  neg = false;
  flags = no_flags;
}

abbrev noon : Calendar
noon = record fresh {
  cal_tm = record zero_tm { tm_hour = pos 12 };
  flags = record no_flags { hour = true; minutes = true; seconds = true };
}

december_text : to_string [] december ≡ codes "Y_2004_M_12_D_5"
unfolding sums
december_text = refl

text_or : Result Calendar → Text
text_or (ok c) = to_string [] c
text_or calendar_exception = []
text_or boost_exception = []
text_or out_of_range = []

-- Nothing added to December 2004 is January 2005.
december_plus_nothing :
    text_or (plus_duration sample still_december fresh december no_time) ≡ codes "Y_2005_M_1_D_5"
unfolding sums text_or maximum_day_in_month get_months get_years
december_plus_nothing = refl

carry_months-Carried_example : Carried true (negsuc 11) (carry_months true (negsuc 11))
carry_months-Carried_example = carry_months-Carried true (negsuc 11)

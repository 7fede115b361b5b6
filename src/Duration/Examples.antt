-- ===== src/Duration/Examples.antt =====
-- Durations written and read, and the theorems at concrete durations.
use xmlbeansxx.Prelude.{◌≡◌, refl, true, false, pos, negsuc, codes, arith}
use xmlbeansxx.TextUtils.{is_white, skip_white, collapse, is_digit, are_digits}
use xmlbeansxx.Fields.{
  ok, calendar_exception, no_flags, digits, int_to_text, pad_zeros, scan_digits, read_int, get_int,
  split_at, starts_with,
}
use xmlbeansxx.Duration.{
  Duration, new_duration, set_years, set_months, set_days, set_hours, set_minutes, set_seconds,
  set_frac_sec, set_neg, get_years, get_months, get_days, get_hours, get_minutes, get_seconds,
  get_frac_sec, to_string, of_text, take_field, take_date_field, take_seconds, read_fields,
}
use xmlbeansxx.Duration.Clock.{FieldsOk, Writable}
use xmlbeansxx.Duration.RoundTrip.{Returns, of_text-to_string}

operations : Unit {0}
unfolding new_duration set_years set_months set_days set_hours set_minutes set_seconds set_frac_sec
    set_neg get_years get_months get_days get_hours get_minutes get_seconds get_frac_sec to_string
    of_text take_field take_date_field take_seconds read_fields is_white skip_white collapse
    is_digit are_digits digits int_to_text pad_zeros scan_digits read_int get_int split_at
    starts_with
operations = tt

-- The fields before any constructor.
abbrev garbage : Duration
garbage = record {
  years = pos 7;
  months = pos 7;
  days = pos 7;
  hours = negsuc 7;
  minutes = pos 7;
  seconds = pos 7;
  frac_sec = pos 7;
  neg = true;
  flags = no_flags;
}

-- -P1Y2M30DT12H4M5.060S
abbrev long : Duration
long = record {
  years = pos 1;
  months = pos 2;
  days = pos 30;
  hours = pos 12;
  minutes = pos 4;
  seconds = pos 5;
  frac_sec = pos 60;
  neg = true;
  flags = record {
    day = true;
    month = true;
    year = true;
    hour = true;
    minutes = true;
    seconds = true;
    fracsec = true;
    timezone = false;
  };
}

-- P5DT3M
abbrev days_and_minutes : Duration
days_and_minutes = record garbage {
  days = pos 5;
  minutes = pos 3;
  neg = false;
  flags = record no_flags { day = true; minutes = true };
}

long_text : to_string long ≡ codes "-P1Y2M30DT12H4M5.060S"
unfolding operations
long_text = refl

short_text : to_string days_and_minutes ≡ codes "P5DT3M"
unfolding operations
short_text = refl

long_read : of_text garbage (codes " -P1Y2M30DT12H4M5.060S\n") ≡ ok long
unfolding operations
long_read = refl

short_refused : of_text garbage (codes "P5DT3M") ≡ calendar_exception
unfolding operations
short_refused = refl

empty_time_refused : of_text garbage (codes "P5DT") ≡ calendar_exception
unfolding operations
empty_time_refused = refl

set_by_hand :
    set_minutes (set_days (set_neg (new_duration garbage) false) (pos 5)) (pos 3) ≡ days_and_minutes
unfolding operations
set_by_hand = refl

long-Writable : Writable long
long-Writable = record {
  fields_ok = record {
    years_ok = omega arith;
    months_ok = omega arith;
    days_ok = omega arith;
    hours_ok = omega arith;
    minutes_ok = omega arith;
    seconds_ok = omega arith;
    frac_ok = omega arith;
    frac_in_seconds = λ e. refl;
  };
  months_between = λ e f. refl;
}

days_and_minutes-FieldsOk : FieldsOk days_and_minutes
days_and_minutes-FieldsOk = record {
  years_ok = tt;
  months_ok = tt;
  days_ok = omega arith;
  hours_ok = tt;
  minutes_ok = omega arith;
  seconds_ok = tt;
  frac_ok = tt;
  frac_in_seconds = λ e. cc e;
}

of_text-to_string_example : Returns long (of_text garbage (to_string long))
of_text-to_string_example = of_text-to_string garbage long long-Writable

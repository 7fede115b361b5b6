-- ===== src/Calendar/Apply.antt =====
-- `applyDuration` of `Calendar`, and the operators over it. Times of Boost are an argument.
pub mod Months
use xmlbeansxx.Prelude.{
  ℕ, ◌+◌, ◌-◌, ◌/◌, ◌%◌, Option, none, some, Bool, true, false, not, ◌&&◌, ◌||◌, ◌==◌, ltb,
  if◌then◌else◌, ℤ, pos, negsuc, ◌+ℤ◌, negate, is_zero,
}
use xmlbeansxx.Fields.{
  Result, ok, calendar_exception, boost_exception, out_of_range, ◌>>=◌, Flags, no_flags,
}
use xmlbeansxx.Duration
use xmlbeansxx.Duration.{Duration, set_neg}
use xmlbeansxx.Calendar.{
  Boost, Calendar, Tm, Outcome, ◌and_then◌, of_boost, fix_tm, set_year, set_month, get_year,
  get_month, get_day, get_hour, get_minutes, get_seconds, get_frac_sec,
}

-- What the source calls of boost::posix_time on a time; `none` is a throw.
pub record PosixTime (Ptime : Type 0) : Type 0 where
  -- `ptime(date(year, month, day), time_duration(hours, minutes, seconds, fraction))`
  pub ptime : ℤ → ℤ → ℤ → ℤ → ℤ → ℤ → ℤ → Option Ptime
  -- `t + (hours(h) + minutes(m) + seconds(s) + millisec(f))`, and `t - (…)`
  pub plus_time : Ptime → ℤ → ℤ → ℤ → ℤ → Option Ptime
  pub minus_time : Ptime → ℤ → ℤ → ℤ → ℤ → Option Ptime
  -- `t + days(d)` and `t - days(d)`
  pub plus_days : Ptime → ℤ → Option Ptime
  pub minus_days : Ptime → ℤ → Option Ptime
  pub is_special : Ptime → Bool
  pub year_of : Ptime → ℕ
  pub month_of : Ptime → ℕ
  pub day_of : Ptime → ℕ
  pub to_tm : Ptime → Tm
  -- `t.time_of_day().fractional_seconds()`
  pub fractional_seconds : Ptime → ℕ

abbrev pub magnitude : ℤ → ℕ
magnitude (pos n) = n
magnitude (negsuc n) = n + 1

unfoldable pub is_leap_year : ℤ → Bool
is_leap_year y =
    (magnitude y % 4 == 0) && (not (magnitude y % 100 == 0) || (magnitude y % 400 == 0))

unfoldable pub maximum_day_in_month : ℤ → ℕ → ℕ
maximum_day_in_month y m =
    if (m == 4) || (m == 6) || (m == 9) || (m == 11)
    then 30
    else if m == 2
    then (if is_leap_year y then 29 else 28)
    else 31

-- The new month and what is carried to the year, from the sum or difference `pom` of months.
unfoldable pub carry_months : Bool → ℤ → ℕ × ℤ
carry_months has_month (negsuc n) = (12 - (n + 1) % 12, negsuc ((n + 1) / 12))
carry_months has_month (pos pom) = (
  (if pom % 12 == 0 then 1 else pom % 12),
  (if (pom == 12) && not has_month then pos (pom / 12) +ℤ negsuc 0 else pos (pom / 12)),
)

-- `a + b`, or `a - b` for a negative duration.
abbrev pub signed_sum : Bool → ℤ → ℤ → ℤ
signed_sum sign a b = if sign then a +ℤ b else a +ℤ negate b

-- The month and year that the new calendar gets.
unfoldable pub new_month_year : Calendar → Duration → Bool → ℕ → ℕ → ℕ × ℤ
new_month_year c dur sign y m =
    let carried =
      if dur.flags.month || c.flags.year
      then carry_months c.flags.month (signed_sum sign (pos m) (Duration.get_months dur))
      else (0, pos 0) in
    (
      carried.0,
      if dur.flags.year || c.flags.year
          then signed_sum sign (carried.1 +ℤ pos y) (Duration.get_years dur)
          else carried.1,
    )

abbrev pub or_default : ℤ → ℤ → ℤ
or_default n k = if is_zero n then k else n

-- `Calendar(const boost::posix_time::ptime &)`, over fields that are not initialised.
unfoldable pub of_ptime : {Ptime : Type 0} → PosixTime Ptime → Calendar → Ptime → Result Calendar
of_ptime lib garbage t =
    let c = record garbage {
      cal_tm = lib.to_tm t;
      flags = record no_flags {
        year = true;
        month = true;
        day = true;
        hour = true;
        minutes = true;
        seconds = true;
      };
    } in
    if lib.is_special t
    then calendar_exception
    else if lib.fractional_seconds t == 0
    then ok c
    else ok record c {
      frac_sec = pos (lib.fractional_seconds t / 1000);
      flags = record c.flags { fracsec = true };
    }

-- The calendar that a call which returns leaves.
abbrev result_calendar : Result (Unit {0}) → Calendar → Result Calendar
result_calendar (ok u) c = ok c
result_calendar calendar_exception c = calendar_exception
result_calendar boost_exception c = boost_exception
result_calendar out_of_range c = out_of_range

abbrev pub outcome_calendar : Outcome → Result Calendar
outcome_calendar o = result_calendar o.returned o.calendar

-- The time before and after the hours and the days of the duration.
abbrev pub start_time : {Ptime : Type 0} → PosixTime Ptime → Calendar → Option Ptime
start_time lib c =
    lib.ptime (or_default (get_year c) (pos 1978)) (or_default (get_month c) (pos 1))
      (or_default (get_day c) (pos 1)) (get_hour c) (get_minutes c) (get_seconds c) (get_frac_sec c)

abbrev pub shift_time : {Ptime : Type 0} → PosixTime Ptime → Bool → Duration → Ptime → Option Ptime
shift_time lib sign d t =
    if sign
    then lib.plus_time t (Duration.get_hours d) (Duration.get_minutes d) (Duration.get_seconds d)
        (Duration.get_frac_sec d)
    else lib.minus_time t (Duration.get_hours d) (Duration.get_minutes d) (Duration.get_seconds d)
        (Duration.get_frac_sec d)

abbrev pub shift_days : {Ptime : Type 0} → PosixTime Ptime → Bool → Duration → Ptime → Option Ptime
shift_days lib sign d t =
    if d.flags.day
    then (if sign
        then lib.plus_days t (Duration.get_days d)
        else lib.minus_days t (Duration.get_days d))
    else some t

-- A day past the end of the new month.
abbrev pub correct_day :
    {Ptime : Type 0} → PosixTime Ptime → Duration → ℕ × ℤ → Ptime → Result Ptime
correct_day lib d my t =
    if ltb (maximum_day_in_month my.1 my.0) (lib.day_of t)
    then (do
      t' ← of_boost (lib.minus_days t (Duration.get_days d))
      of_boost (lib.plus_days t' (pos (maximum_day_in_month my.1 my.0))))
    else ok t

-- The private constructor from the fields of another calendar.
unfoldable pub of_fields : Boost → Tm → ℤ → ℤ → ℤ → ℤ → Flags → Result Calendar
of_fields lib t frac h m dst fl = outcome_calendar (
    fix_tm lib record {
      cal_tm = record t { tm_isdst = dst };
      frac_sec = frac;
      gmt_off_hours = h;
      gmt_off_minutes = m;
      flags = fl;
    })

unfoldable pub apply_duration :
    {Ptime : Type 0} → Boost → PosixTime Ptime → Calendar → Calendar → Duration → Result Calendar
apply_duration boost lib garbage c dur =
    let sign = not dur.neg in
    let fl = record c.flags { fracsec = c.flags.fracsec || dur.flags.fracsec } in
    do
      pt ← of_boost (start_time lib c)
      ret ← of_boost (shift_time lib sign dur pt)
      ret' ← of_boost (shift_days lib sign dur ret)
      let my = new_month_year c dur sign (lib.year_of ret') (lib.month_of ret')
      ret'' ← correct_day lib dur my ret'
      cal ← of_ptime lib garbage ret''
      cal' ←
          outcome_calendar
            (set_month boost (pos my.0) cal and_then (λ cal. set_year boost my.1 cal))
      of_fields boost cal'.cal_tm cal'.frac_sec c.gmt_off_hours c.gmt_off_minutes c.cal_tm.tm_isdst
          fl

-- `operator+`: the calendar itself stays as it is.
unfoldable pub plus_duration :
    {Ptime : Type 0} → Boost → PosixTime Ptime → Calendar → Calendar → Duration → Result Calendar
plus_duration boost lib garbage c d = do
  ret ← apply_duration boost lib garbage c d
  of_fields boost ret.cal_tm ret.frac_sec ret.gmt_off_hours ret.gmt_off_minutes ret.cal_tm.tm_isdst
      ret.flags

-- `operator-`
unfoldable pub minus_duration :
    {Ptime : Type 0} → Boost → PosixTime Ptime → Calendar → Calendar → Duration → Result Calendar
minus_duration boost lib garbage c d = plus_duration boost lib garbage c (set_neg d (not d.neg))

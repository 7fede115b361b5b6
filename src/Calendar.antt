-- ===== src/Calendar.antt =====
-- `Calendar` of src/xmlbeansxx/Calendar.h and Calendar.cpp: dates and times whose fields are set
-- one by one. The date library of Boost is an argument; what a throwing call leaves in the object
-- is part of the result.
pub mod Dates
pub mod Accepted
pub mod Zone
pub mod Reading
pub mod Printing
pub mod Apply
mod Examples
use xmlbeansxx.Prelude.{
  ℕ, ◌+◌, Option, none, some, Bool, true, false, not, ◌&&◌, ◌||◌, if◌then◌else◌, leb, ltb, Text, ℤ,
  pos, negsuc, ◌+ℤ◌, is_negative, is_between, is_zero,
}
use xmlbeansxx.Fields.{
  Result, ok, calendar_exception, boost_exception, out_of_range, Flags, no_flags, get_int,
}

-- `struct tm`, less the fields of the GNU library that the source never reads.
pub record Tm : Type 0 where
  pub tm_sec : ℤ
  pub tm_min : ℤ
  pub tm_hour : ℤ
  pub tm_mday : ℤ
  pub tm_mon : ℤ
  pub tm_year : ℤ
  pub tm_wday : ℤ
  pub tm_yday : ℤ
  pub tm_isdst : ℤ

-- What the source calls of boost::gregorian and boost::posix_time. `none` is a throw; a value that
-- is read may be special, which is `some none`.
pub record Boost : Type 0 where
  -- `to_tm(ptime(date(year, month, day)))`
  pub tm_of_date : ℤ → ℤ → ℤ → Option Tm
  -- `to_iso_extended_string(date(year, month, day))`
  pub iso_date : ℤ → ℤ → ℤ → Option Text
  -- `to_tm(from_undelimited_string(text))`
  pub date_of_text : Text → Option (Option Tm)
  -- `to_tm(from_iso_string(text))`
  pub time_of_text : Text → Option (Option Tm)
  -- `to_tm(duration_from_string(text))`
  pub duration_of_text : Text → Option (Option Tm)

pub record Calendar : Type 0 where
  pub cal_tm : Tm
  pub frac_sec : ℤ
  pub gmt_off_hours : ℤ
  pub gmt_off_minutes : ℤ
  pub flags : Flags

-- A call on a calendar: it returns or throws, and leaves a calendar.
pub record Outcome : Type 0 where
  pub returned : Result (Unit {0})
  pub calendar : Calendar

abbrev pub returns : Calendar → Outcome
returns c = record { returned = ok tt; calendar = c }

abbrev pub throws : Result (Unit {0}) → Calendar → Outcome
throws e c = record { returned = e; calendar = c }

-- One call after another on the same calendar.
abbrev and_then_from : Result (Unit {0}) → Calendar → (Calendar → Outcome) → Outcome
and_then_from (ok u) c f = f c
and_then_from calendar_exception c f = throws calendar_exception c
and_then_from boost_exception c f = throws boost_exception c
and_then_from out_of_range c f = throws out_of_range c

infixl 5 ◌and_then◌
abbrev pub ◌and_then◌ : Outcome → (Calendar → Outcome) → Outcome
o and_then f = and_then_from o.returned o.calendar f

-- A call that does not touch the calendar, and what is done with its result.
abbrev pub with_result {ℓ} : {A : Type ℓ} → Calendar → Result A → (A → Outcome) → Outcome
with_result c (ok a) f = f a
with_result c calendar_exception f = throws calendar_exception c
with_result c boost_exception f = throws boost_exception c
with_result c out_of_range f = throws out_of_range c

abbrev pub of_boost {ℓ} : {A : Type ℓ} → Option A → Result A
of_boost none = boost_exception
of_boost (some a) = ok a

-- `Calendar()`, over fields that it leaves uninitialised.
unfoldable pub new_calendar : Calendar → Calendar
new_calendar garbage = record garbage {
  flags = no_flags;
  cal_tm = record garbage.cal_tm { tm_isdst = negsuc 0 };
}

abbrev pub if_set : Bool → ℤ → ℤ
if_set has n = if has then n else pos 0

unfoldable pub get_year : Calendar → ℤ
get_year c = if_set c.flags.year (pos 1900 +ℤ c.cal_tm.tm_year)

unfoldable pub get_month : Calendar → ℤ
get_month c = if_set c.flags.month (c.cal_tm.tm_mon +ℤ pos 1)

unfoldable pub get_day : Calendar → ℤ
get_day c = if_set c.flags.day c.cal_tm.tm_mday

unfoldable pub get_hour : Calendar → ℤ
get_hour c = if_set c.flags.hour c.cal_tm.tm_hour

unfoldable pub get_minutes : Calendar → ℤ
get_minutes c = if_set c.flags.minutes c.cal_tm.tm_min

unfoldable pub get_seconds : Calendar → ℤ
get_seconds c = if_set c.flags.seconds c.cal_tm.tm_sec

unfoldable pub get_frac_sec : Calendar → ℤ
get_frac_sec c = if_set c.flags.fracsec c.frac_sec

unfoldable pub has_full_date_info : Calendar → Bool
has_full_date_info c = c.flags.year && c.flags.month && c.flags.day

unfoldable pub has_full_time_info : Calendar → Bool
has_full_time_info c = c.flags.hour && c.flags.minutes && c.flags.seconds

-- A new date under the old time of day.
abbrev pub keep_time : Tm → Tm → Tm
keep_time tmp t = record t {
  tm_sec = tmp.tm_sec;
  tm_min = tmp.tm_min;
  tm_hour = tmp.tm_hour;
  tm_isdst = tmp.tm_isdst;
}

-- `fixTm`: a full date is sent through the date library, which refuses an impossible one.
unfoldable pub fix_tm : Boost → Calendar → Outcome
fix_tm lib c =
    if has_full_date_info c
    then with_result c (of_boost (lib.tm_of_date (get_year c) (get_month c) (get_day c)))
        (λ t. returns record c { cal_tm = keep_time c.cal_tm t })
    else returns c

-- `year < -4713 || year > 9999999`
abbrev pub bad_year : ℤ → Bool
bad_year (pos n) = ltb 9999999 n
bad_year (negsuc n) = leb 4713 n

unfoldable pub set_year : Boost → ℤ → Calendar → Outcome
set_year lib y c =
    if bad_year y
    then throws calendar_exception c
    else if is_zero y
    then throws calendar_exception c
    else fix_tm lib record c {
      cal_tm = record c.cal_tm { tm_year = y +ℤ negsuc 1899 };
      flags = record c.flags { year = true };
    }

unfoldable pub set_month : Boost → ℤ → Calendar → Outcome
set_month lib m c =
    if is_between 1 13 m
    then fix_tm lib record c {
      cal_tm = record c.cal_tm { tm_mon = m +ℤ negsuc 0 };
      flags = record c.flags { month = true };
    }
    else throws calendar_exception c

unfoldable pub set_day : Boost → ℤ → Calendar → Outcome
set_day lib d c =
    if is_between 1 32 d
    then fix_tm lib
        record c { cal_tm = record c.cal_tm { tm_mday = d }; flags = record c.flags { day = true } }
    else throws calendar_exception c

unfoldable pub set_hour : ℤ → Calendar → Outcome
set_hour h c =
    if is_between 0 25 h
    then returns record c {
      cal_tm = record c.cal_tm { tm_hour = h };
      flags = record c.flags { hour = true };
    }
    else throws calendar_exception c

unfoldable pub set_minutes : ℤ → Calendar → Outcome
set_minutes m c =
    if is_between 0 61 m
    then returns record c {
      cal_tm = record c.cal_tm { tm_min = m };
      flags = record c.flags { minutes = true };
    }
    else throws calendar_exception c

unfoldable pub set_seconds : ℤ → Calendar → Outcome
set_seconds s c =
    if is_between 0 61 s
    then returns record c {
      cal_tm = record c.cal_tm { tm_sec = s };
      flags = record c.flags { seconds = true };
    }
    else throws calendar_exception c

unfoldable pub set_frac_sec : ℤ → Calendar → Outcome
set_frac_sec f c =
    if is_between 0 1000 f
    then returns record c { frac_sec = f; flags = record c.flags { fracsec = true } }
    else throws calendar_exception c

unfoldable pub dst_on : Calendar → Calendar
dst_on c = record c { cal_tm = record c.cal_tm { tm_isdst = pos 1 } }

unfoldable pub dst_off : Calendar → Calendar
dst_off c = record c { cal_tm = record c.cal_tm { tm_isdst = pos 0 } }

unfoldable pub dst_unknown : Calendar → Calendar
dst_unknown c = record c { cal_tm = record c.cal_tm { tm_isdst = negsuc 0 } }

unfoldable pub is_dst_on : Calendar → Bool
is_dst_on c = is_zero (c.cal_tm.tm_isdst +ℤ negsuc 0)

unfoldable pub is_set_dst : Calendar → Bool
is_set_dst c = is_dst_on c || is_zero c.cal_tm.tm_isdst

-- `hour * minutes < 0`
abbrev pub opposite_signs : ℤ → ℤ → Bool
opposite_signs h m =
    (is_negative h && not (is_negative m || is_zero m))
    || (not (is_negative h || is_zero h) && is_negative m)

unfoldable pub set_gmt_off : ℤ → ℤ → Calendar → Outcome
set_gmt_off h m c =
    if opposite_signs h m
    then throws calendar_exception c
    else returns record c {
      gmt_off_hours = h;
      gmt_off_minutes = m;
      flags = record c.flags { timezone = true };
    }

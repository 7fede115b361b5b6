-- ===== src/Duration.antt =====
-- `Duration` of src/xmlbeansxx/Calendar.h and Calendar.cpp: an xsd:duration, read from and written
-- to text. Fields that a constructor leaves uninitialised are taken from an argument.
pub mod Steps
pub mod Clock
pub mod Reading
pub mod RoundTrip
pub mod Refused
mod Examples
use xmlbeansxx.Prelude.{
  ℕ, ◌+◌, [], ◌∷◌, ◌++◌, Option, none, some, Bool, true, false, not, ◌&&◌, ◌||◌, if◌then◌else◌,
  Text, ℤ, pos,
}
use xmlbeansxx.TextUtils.{collapse}
use xmlbeansxx.Fields.{
  Result, ok, calendar_exception, ◌>>=◌, Flags, no_flags, get_int, int_to_text, pad_zeros, split_at,
  starts_with,
}

pub record Duration : Type 0 where
  pub years : ℤ
  pub months : ℤ
  pub days : ℤ
  pub hours : ℤ
  pub minutes : ℤ
  pub seconds : ℤ
  pub frac_sec : ℤ
  pub neg : Bool
  pub flags : Flags

-- `Duration()`.
unfoldable pub new_duration : Duration → Duration
new_duration garbage = record garbage { neg = false; flags = no_flags }

unfoldable pub set_years : Duration → ℤ → Duration
set_years d y = record d { years = y; flags = record d.flags { year = true } }

unfoldable pub set_months : Duration → ℤ → Duration
set_months d m = record d { months = m; flags = record d.flags { month = true } }

unfoldable pub set_days : Duration → ℤ → Duration
set_days d n = record d { days = n; flags = record d.flags { day = true } }

unfoldable pub set_hours : Duration → ℤ → Duration
set_hours d h = record d { hours = h; flags = record d.flags { hour = true } }

unfoldable pub set_minutes : Duration → ℤ → Duration
set_minutes d m = record d { minutes = m; flags = record d.flags { minutes = true } }

unfoldable pub set_seconds : Duration → ℤ → Duration
set_seconds d s = record d { seconds = s; flags = record d.flags { seconds = true } }

unfoldable pub set_frac_sec : Duration → ℤ → Duration
set_frac_sec d f = record d { frac_sec = f; flags = record d.flags { fracsec = true } }

unfoldable pub set_neg : Duration → Bool → Duration
set_neg d n = record d { neg = n }

-- A field, or 0 where it is not set.
abbrev pub if_set : Bool → ℤ → ℤ
if_set has n = if has then n else pos 0

unfoldable pub get_years : Duration → ℤ
get_years d = if_set d.flags.year d.years

unfoldable pub get_months : Duration → ℤ
get_months d = if_set d.flags.month d.months

unfoldable pub get_days : Duration → ℤ
get_days d = if_set d.flags.day d.days

unfoldable pub get_hours : Duration → ℤ
get_hours d = if_set d.flags.hour d.hours

unfoldable pub get_minutes : Duration → ℤ
get_minutes d = if_set d.flags.minutes d.minutes

unfoldable pub get_seconds : Duration → ℤ
get_seconds d = if_set d.flags.seconds d.seconds

unfoldable pub get_frac_sec : Duration → ℤ
get_frac_sec d = if_set d.flags.fracsec d.frac_sec

unfoldable pub has_full_date_info : Duration → Bool
has_full_date_info d = d.flags.year && d.flags.month && d.flags.day

unfoldable pub has_full_time_info : Duration → Bool
has_full_time_info d = d.flags.hour && d.flags.minutes && d.flags.seconds

-- A number and its letter, where the field is set.
abbrev pub shown : Bool → ℤ → ℕ → Text
shown has n letter = if has then int_to_text n ++ letter ∷ [] else []

abbrev pub fraction : Duration → Text
fraction d = if d.flags.fracsec then b'.' ∷ pad_zeros 3 (int_to_text (get_frac_sec d)) else []

abbrev pub shown_seconds : Duration → Text
shown_seconds d =
    if d.flags.seconds then int_to_text (get_seconds d) ++ (fraction d ++ b'S' ∷ []) else []

abbrev pub shown_time : Duration → Text
shown_time d =
    if d.flags.hour || d.flags.minutes || d.flags.seconds
    then b'T'
      ∷ (shown d.flags.hour (get_hours d) b'H'
          ++ (shown d.flags.minutes (get_minutes d) b'M' ++ shown_seconds d))
    else []

abbrev pub shown_date : Duration → Text → Text
shown_date d rest =
    shown d.flags.year (get_years d) b'Y'
    ++ (shown d.flags.month (get_months d) b'M' ++ (shown d.flags.day (get_days d) b'D' ++ rest))

unfoldable pub to_string : Duration → Text
to_string d = (if d.neg then b'-' ∷ [] else []) ++ b'P' ∷ shown_date d (shown_time d)

-- The constructor's state: the duration built so far and the text `tmp` still to be read.
abbrev pub Reader : Type 0
Reader = Duration × Text

abbrev pub set_found : (Duration → ℤ → Duration) → Reader → Option (Text × Text) → Result Reader
set_found set (d, tmp) none = ok (d, tmp)
set_found set (d, tmp) (some (before, after)) = do n ← get_int before; ok (set d n, after)

-- `if (tmp.find(letter) != npos)`: the text before the letter is a field.
unfoldable pub take_field : ℕ → (Duration → ℤ → Duration) → Reader → Result Reader
take_field letter set r = set_found set r (split_at letter r.1)

-- The same behind `if (tmp.find('T') != 0)`.
unfoldable pub take_date_field : ℕ → (Duration → ℤ → Duration) → Reader → Result Reader
take_date_field letter set r = if not (starts_with b'T' r.1) then take_field letter set r else ok r

-- `tmp.substr(0, tmp.find(letter))`
abbrev pub up_to : Text → Option (Text × Text) → Text
up_to tmp none = tmp
up_to tmp (some (before, after)) = before

abbrev pub found : Option (Text × Text) → Bool
found none = false
found (some p) = true

-- The digits behind the dot end at the first 'S', or at the end of the text where that 'S' stands
-- before the dot.
abbrev pub frac_text : Text × Text → Text
frac_text (before, after) =
    if found (split_at b'S' before) then after else up_to after (split_at b'S' after)

abbrev pub take_fraction : Reader → Option (Text × Text) → Result Reader
take_fraction (d, tmp) none = ok (d, tmp)
take_fraction (d, tmp) (some (before, after)) = do
  n ← get_int (frac_text (before, after))
  ok (set_frac_sec d n, before)

abbrev pub finish_seconds : Reader → Result Duration
finish_seconds (d, tmp) = do n ← get_int (up_to tmp (split_at b'S' tmp)); ok (set_seconds d n)

unfoldable pub take_seconds : Reader → Result Duration
take_seconds (d, tmp) =
    if found (split_at b'S' tmp)
    then (do r ← take_fraction (d, tmp) (split_at b'.' tmp); finish_seconds r)
    else ok d

-- The part behind the letter T.
abbrev pub read_time : Duration → Text → Result Duration
read_time d [] = calendar_exception
read_time d (c ∷ tmp) = do
  r ← take_field b'H' set_hours (d, c ∷ tmp)
  r' ← take_field b'M' set_minutes r
  take_seconds r'

abbrev pub read_rest : Reader → Result Duration
read_rest (d, []) = ok d
read_rest (d, c ∷ tmp) = if starts_with b'T' (c ∷ tmp) then read_time d tmp else calendar_exception

-- The part behind the letter P.
unfoldable pub read_fields : Reader → Result Duration
read_fields r = do
  r' ← take_date_field b'Y' set_years r
  r'' ← take_date_field b'M' set_months r'
  r''' ← take_date_field b'D' set_days r''
  read_rest r'''

abbrev pub read_period : Duration → Text → Result Duration
read_period d [] = calendar_exception
read_period d (c ∷ tmp) =
    if starts_with b'P' (c ∷ tmp) then read_fields (d, tmp) else calendar_exception

abbrev pub read_signed : Duration → Text → Result Duration
read_signed d [] = read_period (record d { neg = false }) []
read_signed d (c ∷ tmp) =
    if starts_with b'-' (c ∷ tmp)
    then read_period (record d { neg = true }) tmp
    else read_period (record d { neg = false }) (c ∷ tmp)

-- `Duration(const std::string &)`.
unfoldable pub of_text : Duration → Text → Result Duration
of_text garbage dur = read_signed (record garbage { flags = no_flags }) (collapse dur)

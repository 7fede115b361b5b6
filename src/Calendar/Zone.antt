-- ===== src/Calendar/Zone.antt =====
-- The time zone at the end of the texts that `Calendar` reads and writes. The source repeats the
-- code that finds and reads it in each of its reading functions.
pub mod Positions
pub mod Digits
use xmlbeansxx.Prelude.{
  ℕ, zero, suc, ◌+◌, ◌-◌, ◌%◌, List, [], ◌∷◌, ◌++◌, Option, none, some, Bool, true, false, not,
  ◌&&◌, ◌||◌, ◌==◌, ltb, leb, if◌then◌else◌, length, take, drop, get_or, Text, ℤ, pos, negsuc, ◌+ℤ◌,
  negate, is_negative, is_zero,
}
use xmlbeansxx.Fields.{
  Result, ok, out_of_range, calendar_exception, ◌>>=◌, get_int, int_to_text, pad_zeros,
}
use xmlbeansxx.Calendar.{Calendar, Outcome, returns, throws, with_result, is_dst_on, dst_off}

-- `std::string::npos`, for a size_t of 64 bits.
abbrev pub npos : ℕ
npos = 18446744073709551615

-- `a - b` of two size_t.
abbrev pub size_minus : ℕ → ℕ → ℕ
size_minus a b = (npos + 1 + a - b) % (npos + 1)

abbrev pub next_index : Option ℕ → Option ℕ
next_index none = none
next_index (some i) = some (suc i)

abbrev pub or_npos : Option ℕ → ℕ
or_npos none = npos
or_npos (some i) = i

unfoldable pub index_of : ℕ → Text → Option ℕ
index_of b [] = none
index_of b (c ∷ s) = let later = next_index (index_of b s) in if c == b then some 0 else later

abbrev pub or_here : Bool → Option ℕ → Option ℕ
or_here here (some i) = some i
or_here here none = if here then some 0 else none

unfoldable pub last_index_of : ℕ → Text → Option ℕ
last_index_of b [] = none
last_index_of b (c ∷ s) = or_here (c == b) (next_index (last_index_of b s))

-- `str.find(c)`
unfoldable pub find : ℕ → Text → ℕ
find b s = or_npos (index_of b s)

-- `str.rfind(c)`
unfoldable pub rfind : ℕ → Text → ℕ
rfind b s = or_npos (last_index_of b s)

abbrev pub is_npos : ℕ → Bool
is_npos n = n == npos

-- `str.substr(i, n)`
unfoldable pub substr_at : Text → ℕ → ℕ → Result Text
substr_at s i n = if ltb (length s) i then out_of_range else ok (take n (drop i s))

-- The variable `sign`: '?', '+', 'Z' or '-'.
pub data Sign : Type 0 where
  no_sign : Sign
  plus : Sign
  utc : Sign
  minus_sign : Sign

abbrev pub sign_code : Sign → ℕ
sign_code no_sign = b'?'
sign_code plus = b'+'
sign_code utc = b'Z'
sign_code minus_sign = b'-'

-- `has_minus` is what the function at hand takes for a negative zone.
unfoldable pub find_sign : Bool → Text → Sign
find_sign has_minus pt =
    if not (is_npos (rfind b'+' pt))
    then plus
    else if not (is_npos (rfind b'Z' pt))
    then utc
    else if has_minus
    then minus_sign
    else no_sign

-- The text of the zone and the text before it, split at the last occurrence of the sign.
abbrev pub cut_at : ℕ → Text → Result (Text × Text)
cut_at sign pt = do
  tz ← substr_at pt (rfind sign pt) (length pt)
  rest ← substr_at pt 0 (rfind sign pt)
  ok (tz, rest)

unfoldable pub cut_zone : Sign → Text → Result (Text × Text)
cut_zone no_sign pt = ok ([], pt)
cut_zone plus pt = cut_at b'+' pt
cut_zone utc pt = cut_at b'Z' pt
cut_zone minus_sign pt = cut_at b'-' pt

-- `cal_tm.tm_isdst = 0; flags |= has_timezone;` after both offsets are stored.
abbrev pub store_zone : ℤ → ℤ → Calendar → Calendar
store_zone h m c = record c {
  gmt_off_hours = h;
  gmt_off_minutes = m;
  cal_tm = record c.cal_tm { tm_isdst = pos 0 };
  flags = record c.flags { timezone = true };
}

abbrev pub int_at : Text → ℕ → ℕ → Result ℤ
int_at s i n = do t ← substr_at s i n; get_int t

-- `tz[3]` of a text that is shorter is any byte: the length is then refused all the same.
abbrev pub bad_zone : Text → Bool
bad_zone tz = not (get_or tz 3 0 == b':') || not (length tz == 6)

abbrev pub read_offsets : (ℤ → ℤ) → Text → Calendar → Outcome
read_offsets f tz c =
    if bad_zone tz
    then throws calendar_exception c
    else with_result c (int_at tz 1 2) (λ h.
      with_result record c { gmt_off_hours = f h } (int_at tz 4 5)
        (λ m. returns (store_zone (f h) (f m) c)))

unfoldable pub read_zone : Sign → Text → Calendar → Outcome
read_zone no_sign tz c = returns c
read_zone utc tz c = returns (store_zone (pos 0) (pos 0) c)
read_zone plus tz c = read_offsets (λ n. n) tz c
read_zone minus_sign tz c = read_offsets negate tz c

abbrev pub two_digits : ℤ → Text
two_digits n = pad_zeros 2 (int_to_text n)

abbrev pub shown_zone : ℤ → ℤ → Text
shown_zone h m =
    if is_negative h
    then b'-' ∷ (two_digits (negate h) ++ b':' ∷ two_digits (negate m))
    else b'+' ∷ (two_digits h ++ b':' ∷ two_digits m)

-- `timeZoneToString`
unfoldable pub time_zone_to_string : Calendar → Text
time_zone_to_string c =
    if c.flags.timezone
    then if is_zero c.gmt_off_hours && is_zero c.gmt_off_minutes && is_zero c.cal_tm.tm_isdst
      then b'Z' ∷ []
      else shown_zone (if is_dst_on c then c.gmt_off_hours +ℤ pos 1 else c.gmt_off_hours)
          c.gmt_off_minutes
    else []

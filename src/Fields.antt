-- ===== src/Fields.antt =====
-- What `Calendar` and `Duration` share in src/xmlbeansxx/Calendar.cpp: the bits of `flags`, the
-- exception, and numbers read from and written to text.
pub mod Numbers
use xmlbeansxx.Prelude.{
  ℕ, zero, suc, ◌+◌, ◌-◌, ◌*◌, ◌/◌, ◌%◌, ◌^◌, List, [], ◌∷◌, ◌++◌, Option, none, some, Bool, true,
  false, not, ◌&&◌, ◌||◌, ◌==◌, ltb, if◌then◌else◌, length, replicate, Text, ℤ, pos, negsuc,
}
use xmlbeansxx.TextUtils.{are_digits, collapse}

-- `calendar_exception` is a throw of CalendarException, `boost_exception` one of the date library,
-- and `out_of_range` one of std::string::substr.
pub data Result {ℓ} (A : Type ℓ) : Type ℓ where
  ok : A → Result A
  calendar_exception : Result A
  boost_exception : Result A
  out_of_range : Result A

infixl 5 ◌>>=◌
abbrev pub ◌>>=◌ {ℓ κ} : {A : Type ℓ} {B : Type κ} → Result A → (A → Result B) → Result B
ok a >>= f = f a
calendar_exception >>= f = calendar_exception
boost_exception >>= f = boost_exception
out_of_range >>= f = out_of_range

-- The eight bits of `flags`; the source's constants are distinct powers of two.
pub record Flags : Type 0 where
  pub day : Bool
  pub month : Bool
  pub year : Bool
  pub hour : Bool
  pub minutes : Bool
  pub seconds : Bool
  pub fracsec : Bool
  pub timezone : Bool

-- `flags = 0`
abbrev pub no_flags : Flags
no_flags = record {
  day = false;
  month = false;
  year = false;
  hour = false;
  minutes = false;
  seconds = false;
  fracsec = false;
  timezone = false;
}

-- The decimal digits of a number; an `int` has ten at most.
unfoldable pub digits : ℕ → ℕ → Text
digits zero n = []
digits (suc places) n =
    let front = digits places (n / 10) in
    if ltb n 10 then (b'0' + n) ∷ [] else front ++ (b'0' + n % 10) ∷ []

-- `ss << n` of an `int`.
unfoldable pub int_to_text : ℤ → Text
unfolding digits
int_to_text (pos n) = digits 10 n
int_to_text (negsuc n) = b'-' ∷ digits 10 (n + 1)

-- `std::setw(w) << std::setfill('0') << n`
unfoldable pub pad_zeros : ℕ → Text → Text
pad_zeros w t = replicate (w - length t) b'0' ++ t

abbrev pub max_int : ℕ
max_int = 2147483647

-- `ss >> len` of digits: the number, or the largest `int` where it does not fit.
unfoldable pub scan_digits : ℕ → Text → ℕ
scan_digits v [] = v
scan_digits v (c ∷ s) = scan_digits (v * 10 + (c - b'0')) s

unfoldable pub read_int : Text → ℤ
unfolding scan_digits
read_int s = let v = scan_digits 0 s in if ltb max_int v then pos max_int else pos v

-- `getInt`: no digits at all are read as 0.
unfoldable pub get_int : Text → Result ℤ
get_int sint =
    let tmp = collapse sint in
    if not (are_digits tmp) then calendar_exception else ok (read_int tmp)

-- `find` and the two `substr`s around a byte: the text before its first occurrence and behind it.
abbrev pub behind : ℕ → Option (Text × Text) → Option (Text × Text)
behind c none = none
behind c (some (before, after)) = some (c ∷ before, after)

unfoldable pub split_at : ℕ → Text → Option (Text × Text)
split_at b [] = none
split_at b (c ∷ s) = let later = behind c (split_at b s) in if c == b then some ([], s) else later

-- `find(b) == 0`
unfoldable pub starts_with : ℕ → Text → Bool
starts_with b [] = false
starts_with b (c ∷ s) = c == b

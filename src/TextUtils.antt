-- ===== src/TextUtils.antt =====
-- The text tests and the trimming of src/xmlbeansxx/TextUtils.cpp, on byte strings.
pub mod Trim
pub mod Trimmed
pub mod Base64
mod Examples
use xmlbeansxx.Prelude.{
  ℕ, zero, suc, ◌+◌, ◌-◌, List, [], ◌∷◌, ◌++◌, Bool, true, false, not, ◌&&◌, ◌||◌, ◌==◌, leb, ltb,
  if◌then◌else◌, length, take, drop, get_or, Text, codes,
}
use mathlib.Core.List.{reverse}

unfoldable pub bool_to_string : Bool → Text
bool_to_string false = codes "false"
bool_to_string true = codes "true"

unfoldable pub is_white : ℕ → Bool
is_white ch = (ch == b'\n') || (ch == b' ') || (ch == b'\t')

-- The rounds of `while (a<l && isWhite(str[a])) a++`, on the rest of the string.
unfoldable pub skip_white : Text → ℕ
skip_white [] = 0
skip_white (c ∷ s) = let rest = skip_white s in if is_white c then suc rest else 0

-- `a` counts from the front and `b` from the back; `end` is the source's b + 1.
unfoldable pub collapse : Text → Text
collapse str =
    let l = length str in
    let a = skip_white str in
    let end = l - skip_white (reverse str) in
    if leb l a || leb end a then [] else take (end - a) (drop a str)

unfoldable pub is_digit : ℕ → Bool
is_digit c = leb b'0' c && leb c b'9'

unfoldable pub are_digits : Text → Bool
are_digits [] = true
are_digits (c ∷ d) = is_digit c && are_digits d

-- `num`: the text without its sign.
unfoldable pub without_sign : Text → Text
without_sign [] = []
without_sign (c ∷ num) = if (c == b'-') || (c == b'+') then num else c ∷ num

unfoldable pub check_integer : Text → Bool
check_integer num2 = if ltb (length num2) 1 then false else are_digits (without_sign num2)

-- The loop of `checkDecimal`, with the dots met so far.
unfoldable pub decimal_loop : ℕ → Text → Bool
decimal_loop dots [] = true
decimal_loop dots (c ∷ num) =
    let dots' = if c == b'.' then suc dots else dots in
    let later = decimal_loop dots' num in
    if not (is_digit c || (c == b'.')) then false else if ltb 1 dots' then false else later

unfoldable pub check_decimal : Text → Bool
check_decimal num2 = if ltb (length num2) 1 then false else decimal_loop 0 (without_sign num2)

-- `str.substr(pos, n)` with `pos` inside the string.
abbrev pub substr : Text → ℕ → ℕ → Text
substr str i n = take n (drop i str)

unfoldable pub check_date : Text → Bool
check_date date =
    if not (length date == 10)
    then false
    else are_digits (substr date 0 4)
      && are_digits (substr date 5 2)
      && are_digits (substr date 8 2)
      && (get_or date 4 0 == b'-')
      && (get_or date 7 0 == b'-')

unfoldable pub in_base64 : ℕ → Bool
in_base64 c =
    (leb b'0' c && leb c b'9')
    || (leb b'A' c && leb c b'Z')
    || (leb b'a' c && leb c b'z')
    || (c == b'+')
    || (c == b'/')
    || (c == b'=')

unfoldable pub to_canonical_base64 : Text → Text
to_canonical_base64 [] = []
to_canonical_base64 (c ∷ s) =
    let rest = to_canonical_base64 s in if in_base64 c then c ∷ rest else rest

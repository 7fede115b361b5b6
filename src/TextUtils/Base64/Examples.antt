-- ===== src/TextUtils/Base64/Examples.antt =====
-- Base64 by the table of RFC 2045.
use xmlbeansxx.Prelude.{
  ℕ, ◌+◌, ◌-◌, ◌*◌, ◌/◌, ◌%◌, [], ◌∷◌, some, ◌==◌, ltb, if◌then◌else◌, ◌≡◌, refl, Text, codes,
  arith,
}
use xmlbeansxx.TextUtils.{in_base64, to_canonical_base64}
use xmlbeansxx.TextUtils.Base64.{Codec, put_pads, base64_encode, base64_decode, look_at, find_pads}
use xmlbeansxx.TextUtils.Base64.RoundTrip.{base64_decode-base64_encode}

abbrev digit : ℕ → ℕ
digit v =
    if ltb v 26
    then v + 65
    else if ltb v 52
    then v + 71
    else if ltb v 62
    then v - 4
    else if v == 62
    then b'+'
    else b'/'

abbrev value : ℕ → ℕ
value c =
    if c == b'+'
    then 62
    else if c == b'/'
    then 63
    else if ltb c 58
    then c + 4
    else if ltb c 91
    then c - 65
    else c - 71

abbrev to_digits : Text → Text
to_digits (a ∷ b ∷ c ∷ s) =
    digit (a / 4)
    ∷ digit (a % 4 * 16 + b / 16)
    ∷ digit (b % 16 * 4 + c / 64)
    ∷ digit (c % 64)
    ∷ to_digits s
to_digits s = []

abbrev from_digits : Text → Text
from_digits (w ∷ x ∷ y ∷ z ∷ s) =
    (value w * 4 + value x / 16)
    ∷ (value x % 16 * 16 + value y / 4)
    ∷ (value y % 4 * 64 + value z)
    ∷ from_digits s
from_digits s = []

table-Codec : Codec to_digits from_digits digit value
unfolding in_base64
table-Codec = record {
  to_nothing = refl;
  to_digits = λ a b c s. refl;
  from_nothing = refl;
  from_digits = λ w x y z s. refl;
  value-digit = λ v h. ground arith;
  digit_in = λ v h. ground arith;
  digit_no_pad = λ v h. ground arith;
}

base64_decode-base64_encode_example :
    base64_decode from_digits (base64_encode to_digits (0 ∷ 255 ∷ 16 ∷ 200 ∷ []))
    ≡ some (0 ∷ 255 ∷ 16 ∷ 200 ∷ [])
base64_decode-base64_encode_example =
    base64_decode-base64_encode to_digits from_digits digit value table-Codec
      (0 ∷ 255 ∷ 16 ∷ 200 ∷ []) (omega arith, (omega arith, (omega arith, (omega arith, tt))))

-- Spaces and line ends between the digits are dropped.
with_spaces : base64_decode from_digits (codes "TW\nFu IQ= =") ≡ some (codes "Man!")
unfolding base64_decode to_canonical_base64 in_base64 find_pads look_at
with_spaces = refl

padded : base64_encode to_digits (codes "Ma") ≡ codes "TWE="
unfolding base64_encode put_pads
padded = refl

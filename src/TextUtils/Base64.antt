-- ===== src/TextUtils/Base64.antt =====
-- `base64Encode` and `base64Decode` of src/xmlbeansxx/TextUtils.cpp. The iterators of Boost that
-- turn bytes to digits and digits to bytes are arguments, functions on whole texts; what they are
-- documented to do is a Codec.
pub mod Quads
pub mod RoundTrip
mod Examples
use xmlbeansxx.Prelude.{
  ℕ, zero, suc, ◌+◌, ◌-◌, ◌*◌, ◌/◌, ◌%◌, ◌<◌, List, [], ◌∷◌, ◌++◌, Option, none, some, Bool, true,
  false, ◌==◌, ltb, if◌then◌else◌, length, take, get_or, set, replicate, ◌≡◌, Text,
}
use xmlbeansxx.TextUtils.{in_base64, to_canonical_base64}

-- The loop `enc[enc.size()-i]='='` from `i` on, with the rounds that are left.
unfoldable pub put_pads : ℕ → ℕ → Text → Text
put_pads zero i enc = enc
put_pads (suc rounds) i enc = put_pads rounds (i + 1) (set enc (length enc - i) b'=')

unfoldable pub base64_encode : (Text → Text) → Text → Text
base64_encode base64_t what =
    let pads = (3 - length what % 3) % 3 in put_pads pads 1 (base64_t (what ++ replicate pads 0))

-- One round of the search for pads, at the position `size`; a pad becomes a digit.
unfoldable pub look_at : ℕ → Text × ℕ → Text × ℕ
look_at size (what, pads) =
    if get_or what size 0 == b'=' then (set what size b'0', pads + 1) else (what, pads)

unfoldable pub find_pads : Text → Text × ℕ
find_pads what =
    if ltb 2 (length what)
    then look_at (length what - 2) (look_at (length what - 1) (what, 0))
    else (what, 0)

-- The array of the bytes without those of the pads. Where there are fewer bytes than pads, the
-- length wraps around, and the loop reads behind the end: `none`.
abbrev pub first_bytes : Text → ℕ → Option Text
first_bytes dec pads = if ltb (length dec) pads then none else some (take (length dec - pads) dec)

abbrev pub bytes_of : (Text → Text) → Text × ℕ → Option Text
bytes_of binary_t (what, pads) = first_bytes (binary_t what) pads

unfoldable pub base64_decode : (Text → Text) → Text → Option Text
base64_decode binary_t what2 = bytes_of binary_t (find_pads (to_canonical_base64 what2))

-- The documented behaviour: three bytes are four digits of six bits, by a table of digits that are
-- in the alphabet and are no pad, and four digits are three bytes again.
pub record Codec (base64_t binary_t : Text → Text) (digit value : ℕ → ℕ) : Type 0 where
  pub to_nothing : base64_t [] ≡ []
  pub to_digits :
      (a b c : ℕ) (s : Text)
      → base64_t (a ∷ b ∷ c ∷ s)
        ≡ digit (a / 4)
          ∷ digit (a % 4 * 16 + b / 16)
          ∷ digit (b % 16 * 4 + c / 64)
          ∷ digit (c % 64)
          ∷ base64_t s
  pub from_nothing : binary_t [] ≡ []
  pub from_digits :
      (w x y z : ℕ) (s : Text)
      → binary_t (w ∷ x ∷ y ∷ z ∷ s)
        ≡ (value w * 4 + value x / 16)
          ∷ (value x % 16 * 16 + value y / 4)
          ∷ (value y % 4 * 64 + value z)
          ∷ binary_t s
  pub value-digit : (v : ℕ) → v < 64 → value (digit v) ≡ v
  pub digit_in : (v : ℕ) → v < 64 → in_base64 (digit v) ≡ true
  pub digit_no_pad : (v : ℕ) → v < 64 → (digit v == b'=') ≡ false

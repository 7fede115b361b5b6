-- ===== src/Calendar/Zone/Digits.antt =====
-- The two numbers of a time zone, written with two digits and read back.
use xmlbeansxx.Prelude.{
  ℕ, ◌+◌, ◌/◌, ◌%◌, ◌≤◌, ◌≡◌, refl, subst, [], ◌∷◌, true, ltb, Bool-cases, inl, inr, ℤ, pos, arith,
}
use xmlbeansxx.Fields.{ok, digits, int_to_text, pad_zeros, get_int}
use xmlbeansxx.Fields.Numbers.{get_int-pad_zeros}
use xmlbeansxx.Calendar.{Calendar, returns}
use xmlbeansxx.Calendar.Zone.{two_digits, read_offsets, store_zone, substr_at}

pub two_digits_lem : (n : ℕ) → n ≤ 99 → two_digits (pos n) ≡ (b'0' + n / 10) ∷ (b'0' + n % 10) ∷ []
unfolding int_to_text digits pad_zeros
two_digits_lem n h = elim (Bool-cases (ltb n 10)) [
  | inl small ↦ rw small (ground arith)
  | inr large ↦ rw (large, front) (ground arith)
]
  where
    front : ltb (n / 10) 10 ≡ true
    front = ground arith

get_int-two : (n : ℕ) → n ≤ 99 → get_int ((b'0' + n / 10) ∷ (b'0' + n % 10) ∷ []) ≡ ok (pos n)
get_int-two n h =
    subst (λ t. get_int t ≡ ok (pos n)) (two_digits_lem n h) (get_int-pad_zeros 2 n (omega arith))

-- A zone of two digits, a colon and two digits.
pub read_offsets-digits :
    (f : ℤ → ℤ) (sign h m : ℕ) (c : Calendar)
    → h ≤ 99
    → m ≤ 99
    → read_offsets f
        (sign ∷ (b'0' + h / 10) ∷ (b'0' + h % 10) ∷ b':' ∷ (b'0' + m / 10) ∷ (b'0' + m % 10) ∷ [])
        c
      ≡ returns (store_zone (f (pos h)) (f (pos m)) c)
unfolding substr_at
read_offsets-digits f sign h m c k l = rw (get_int-two h k, get_int-two m l) refl

-- ===== src/Fields/Numbers.antt =====
-- Numbers written to text are read back.
use xmlbeansxx.Prelude.{
  ℕ, zero, suc, ◌+◌, ◌-◌, ◌*◌, ◌/◌, ◌%◌, ◌^◌, ◌≤◌, ◌<◌, ◌≡◌, ◌≢◌, refl, ◌∙◌, subst, [], ◌∷◌, ◌++◌,
  none, some, true, false, ltb, Bool-cases, inl, inr, length, replicate, Text, pos, arith,
}
use native.Mathlib.Nat.{pow-suc}
use xmlbeansxx.TextUtils.{is_digit, are_digits, is_white}
use xmlbeansxx.TextUtils.Trim.{AllSolid, collapse_solid}
use xmlbeansxx.Fields.{
  ok, calendar_exception, digits, int_to_text, pad_zeros, max_int, scan_digits, read_int, get_int,
  split_at,
}

-- Digits only, as a type.
abbrev pub AllDigits : Text → Type 0
AllDigits [] = Unit {0}
AllDigits (c ∷ s) = ((b'0' ≤ c) × (c ≤ b'9')) × AllDigits s

pub AllDigits-append : (s t : Text) → AllDigits s → AllDigits t → AllDigits (s ++ t)
AllDigits-append [] t h k = k
AllDigits-append (c ∷ s) t h k = (h.0, AllDigits-append s t h.1 k)

pub digits-AllDigits : (places n : ℕ) → AllDigits (digits places n)
unfolding digits
digits-AllDigits zero n = tt
digits-AllDigits (suc places) n = elim (Bool-cases (ltb n 10)) [
  | inl small ↦ rw small ((omega arith, ground arith), tt)
  | inr large ↦ rw large (
      AllDigits-append (digits places (n / 10)) _ (digits-AllDigits places (n / 10))
        ((omega arith, omega arith), tt))
]

pub are_digits-AllDigits : (s : Text) → AllDigits s → are_digits s ≡ true
unfolding are_digits is_digit
are_digits-AllDigits [] h = refl
are_digits-AllDigits (c ∷ s) h = ground (arith, are_digits-AllDigits s h.1)

scan_digits-append :
    (v : ℕ) (s : Text) (c : ℕ) → scan_digits v (s ++ c ∷ []) ≡ scan_digits v s * 10 + (c - b'0')
unfolding scan_digits
scan_digits-append v [] c = refl
scan_digits-append v (d ∷ s) c = scan_digits-append (v * 10 + (d - b'0')) s c

scan_digits-digits : (places n : ℕ) → n < 10 ^ places → scan_digits 0 (digits places n) ≡ n
unfolding digits scan_digits
scan_digits-digits zero n h = omega arith
scan_digits-digits (suc places) n h = elim (Bool-cases (ltb n 10)) [
  | inl small ↦ rw small (omega arith)
  | inr large ↦
      rw (large, scan_digits-append 0 (digits places (n / 10)) (b'0' + n % 10))
        (omega (arith, scan_digits-digits places (n / 10) (omega (arith, pow-suc 10 places))))
]

digit_solid : (c : ℕ) → b'0' ≤ c → is_white c ≡ false
unfolding is_white
digit_solid c h = ground arith

pub AllDigits-AllSolid : (s : Text) → AllDigits s → AllSolid s
AllDigits-AllSolid [] h = tt
AllDigits-AllSolid (c ∷ s) h = (digit_solid c h.0.0, AllDigits-AllSolid s h.1)

-- A text of digits that stand for an `int` is read.
get_int-AllDigits :
    (s : Text) → AllDigits s → scan_digits 0 s ≤ max_int → get_int s ≡ ok (pos (scan_digits 0 s))
unfolding get_int read_int
get_int-AllDigits s h k =
    rw (collapse_solid s (AllDigits-AllSolid s h), are_digits-AllDigits s h) (ground arith)

-- A number that is an `int` is read back from its digits.
pub get_int-int_to_text : (n : ℕ) → n ≤ max_int → get_int (int_to_text (pos n)) ≡ ok (pos n)
unfolding int_to_text
get_int-int_to_text n h =
    subst (λ v. get_int (digits 10 n) ≡ ok (pos v)) (scan_digits-digits 10 n (omega arith))
      (get_int-AllDigits (digits 10 n) (digits-AllDigits 10 n)
        (omega (arith, scan_digits-digits 10 n (omega arith))))

zeros-AllDigits : (k : ℕ) → AllDigits (replicate k b'0')
zeros-AllDigits zero = tt
zeros-AllDigits (suc k) = ((omega arith, omega arith), zeros-AllDigits k)

scan_digits-zeros : (k : ℕ) (s : Text) → scan_digits 0 (replicate k b'0' ++ s) ≡ scan_digits 0 s
unfolding scan_digits
scan_digits-zeros zero s = refl
scan_digits-zeros (suc k) s = scan_digits-zeros k s

pub padded-AllDigits : (w n : ℕ) → AllDigits (pad_zeros w (int_to_text (pos n)))
unfolding int_to_text pad_zeros
padded-AllDigits w n =
    AllDigits-append (replicate (w - length (digits 10 n)) b'0') (digits 10 n) (zeros-AllDigits _)
      (digits-AllDigits 10 n)

-- Leading zeros do not change the number that is read.
pub get_int-pad_zeros :
    (w n : ℕ) → n ≤ max_int → get_int (pad_zeros w (int_to_text (pos n))) ≡ ok (pos n)
unfolding int_to_text pad_zeros
get_int-pad_zeros w n h =
    subst (λ v. get_int (pad_zeros w (digits 10 n)) ≡ ok (pos v)) scanned
      (get_int-AllDigits (pad_zeros w (digits 10 n)) (padded-AllDigits w n)
        (omega (arith, scanned)))
  where
    scanned : scan_digits 0 (pad_zeros w (digits 10 n)) ≡ n
    scanned =
        scan_digits-zeros (w - length (digits 10 n)) (digits 10 n)
        ∙ scan_digits-digits 10 n (omega arith)

-- Text with no such byte is not split, and text with one is split at the first.
abbrev pub Lacks : ℕ → Text → Type 0
Lacks b [] = Unit {0}
Lacks b (c ∷ s) = (c ≢ b) × Lacks b s

pub split_at-Lacks : (b : ℕ) (s : Text) → Lacks b s → split_at b s ≡ none
unfolding split_at
split_at-Lacks b [] h = refl
split_at-Lacks b (c ∷ s) h = ground (arith, split_at-Lacks b s h.1)

pub split_at-append : (b : ℕ) (s t : Text) → Lacks b s → split_at b (s ++ b ∷ t) ≡ some (s, t)
unfolding split_at
split_at-append b [] t h = ground arith
split_at-append b (c ∷ s) t h = ground (arith, split_at-append b s t h.1)

-- A byte past the digits is not among them.
pub AllDigits-Lacks : (b : ℕ) (s : Text) → AllDigits s → b'9' < b → Lacks b s
AllDigits-Lacks b [] h k = tt
AllDigits-Lacks b (c ∷ s) h k = (omega arith, AllDigits-Lacks b s h.1 k)

pub Lacks-append : (b : ℕ) (s t : Text) → Lacks b s → Lacks b t → Lacks b (s ++ t)
Lacks-append b [] t h k = k
Lacks-append b (c ∷ s) t h k = (h.0, Lacks-append b s t h.1 k)

pub AllDigits-Lacks_dot : (s : Text) → AllDigits s → Lacks b'.' s
AllDigits-Lacks_dot [] h = tt
AllDigits-Lacks_dot (c ∷ s) h = (omega arith, AllDigits-Lacks_dot s h.1)

-- A text with a byte that is no digit is refused.
are_digits-append : (s : Text) (c : ℕ) (t : Text) → b'9' < c → are_digits (s ++ c ∷ t) ≡ false
unfolding are_digits is_digit
are_digits-append [] c t h = ground arith
are_digits-append (d ∷ s) c t h = ground (arith, are_digits-append s c t h)

pub get_int-append :
    (s : Text) (c : ℕ) (t : Text)
    → AllSolid (s ++ c ∷ t)
    → b'9' < c
    → get_int (s ++ c ∷ t) ≡ calendar_exception
unfolding get_int
get_int-append s c t h k = rw (collapse_solid (s ++ c ∷ t) h, are_digits-append s c t k) refl

-- ===== src/Duration/Steps.antt =====
-- The steps of the reading constructor of `Duration`, on text that `to_string` has written.
use xmlbeansxx.Prelude.{
  ℕ, ◌≤◌, ◌<◌, ◌≡◌, ◌≢◌, refl, ap, sym, ◌∙◌, ◌⊎◌, inl, inr, [], ◌∷◌, ◌++◌, append_assoc, none, Bool,
  true, false, not, if◌then◌else◌, Text, ℤ, pos, negsuc, arith,
}
use xmlbeansxx.Fields.{ok, max_int, get_int, int_to_text, pad_zeros, starts_with}
use xmlbeansxx.Fields.Numbers.{
  AllDigits, AllDigits-Lacks, AllDigits-Lacks_dot, Lacks, Lacks-append, digits-AllDigits,
  get_int-int_to_text, get_int-pad_zeros, padded-AllDigits, split_at-Lacks, split_at-append,
}
use xmlbeansxx.Duration.{
  Duration, set_seconds, set_frac_sec, if_set, shown, take_field, take_date_field, take_seconds,
  set_found,
}

-- A field that is set holds a number that is neither negative nor too large for an `int`.
abbrev pub Natural : ℤ → Type 0
Natural (pos n) = n ≤ max_int
Natural (negsuc n) = ⊥

abbrev pub FieldOk : Bool → ℤ → Type 0
FieldOk false v = Unit {0}
FieldOk true v = Natural v

-- What the reader does to a field: it is set, or left alone.
abbrev pub put : Bool → (Duration → ℤ → Duration) → ℤ → Duration → Duration
put has set v d = if has then set d v else d

pub int_to_text-AllDigits : (n : ℕ) → AllDigits (int_to_text (pos n))
unfolding int_to_text
int_to_text-AllDigits n = digits-AllDigits 10 n

-- `n ++ letter ∷ rest` in the nesting of `shown`.
regroup : (s : Text) (c : ℕ) (rest : Text) → (s ++ c ∷ []) ++ rest ≡ s ++ c ∷ rest
regroup s c rest = append_assoc s (c ∷ []) rest

take_field-digits :
    (letter : ℕ) (set : Duration → ℤ → Duration) (d : Duration) (n : ℕ) (rest : Text)
    → b'9' < letter
    → n ≤ max_int
    → take_field letter set (d, int_to_text (pos n) ++ letter ∷ rest) ≡ ok (set d (pos n), rest)
unfolding take_field
take_field-digits letter set d n rest h k =
    rw
      (
        split_at-append letter (int_to_text (pos n)) rest
            (AllDigits-Lacks letter (int_to_text (pos n)) (int_to_text-AllDigits n) h),
        get_int-int_to_text n k,
      )
      refl

-- A field that is set is read, and one that is not is passed over where its letter does not come.
pub take_field-shown :
    (letter : ℕ) (set : Duration → ℤ → Duration) (d : Duration) (has : Bool) (v : ℤ) (rest : Text)
    → b'9' < letter
    → FieldOk has v
    → (has ≡ false → Lacks letter rest)
    → take_field letter set (d, shown has (if_set has v) letter ++ rest)
      ≡ ok (put has set v d, rest)
unfolding take_field
take_field-shown letter set d false v rest h k quiet =
    rw (split_at-Lacks letter rest (quiet refl)) refl
take_field-shown letter set d true (pos n) rest h k quiet =
    ap (λ t. take_field letter set (d, t)) (regroup (int_to_text (pos n)) letter rest)
    ∙ take_field-digits letter set d n rest h k
take_field-shown letter set d true (negsuc n) rest h k quiet = absurd k

pub starts_with-digits :
    (s : Text) (c : ℕ) (rest : Text)
    → AllDigits s
    → c ≢ b'T'
    → starts_with b'T' (s ++ c ∷ rest) ≡ false
unfolding starts_with
starts_with-digits [] c rest h k = ground (arith, k)
starts_with-digits (d ∷ s) c rest h k = ground (arith, h.0)

-- The letter does not come in the date part.
abbrev pub Quiet : ℕ → Text → Type 0
Quiet letter rest = (starts_with b'T' rest ≡ true) ⊎ Lacks letter rest

pub take_date_field-shown :
    (letter : ℕ) (set : Duration → ℤ → Duration) (d : Duration) (has : Bool) (v : ℤ) (rest : Text)
    → b'9' < letter
    → letter ≢ b'T'
    → FieldOk has v
    → (has ≡ false → Quiet letter rest)
    → take_date_field letter set (d, shown has (if_set has v) letter ++ rest)
      ≡ ok (put has set v d, rest)
unfolding take_date_field take_field
take_date_field-shown letter set d false v rest h other k quiet = elim (quiet refl) [
  | inl time ↦ rw time refl
  | inr lacks ↦ rw (split_at-Lacks letter rest lacks) (skipped (starts_with b'T' rest))
]
  where
    skipped :
        (b : Bool) → (if not b then set_found set (d, rest) none else ok (d, rest)) ≡ ok (d, rest)
    skipped false = refl
    skipped true = refl
take_date_field-shown letter set d true (pos n) rest h other k quiet =
    ap (λ t. take_date_field letter set (d, t)) (regroup (int_to_text (pos n)) letter rest)
    ∙ rw (starts_with-digits (int_to_text (pos n)) letter rest (int_to_text-AllDigits n) other)
        (take_field-digits letter set d n rest h k)
take_date_field-shown letter set d true (negsuc n) rest h other k quiet = absurd k

-- Seconds without a fraction, and with one.
pub take_seconds-whole :
    (d : Duration) (n : ℕ)
    → n ≤ max_int
    → take_seconds (d, int_to_text (pos n) ++ b'S' ∷ []) ≡ ok (set_seconds d (pos n))
unfolding take_seconds
take_seconds-whole d n h =
    rw
      (
        split_at-append b'S' (int_to_text (pos n)) []
            (AllDigits-Lacks b'S' (int_to_text (pos n)) (int_to_text-AllDigits n) (omega arith)),
        split_at-Lacks b'.' (int_to_text (pos n) ++ b'S' ∷ []) (
            Lacks-append b'.' (int_to_text (pos n)) (b'S' ∷ [])
              (AllDigits-Lacks_dot (int_to_text (pos n)) (int_to_text-AllDigits n))
              ((omega arith), tt)),
        split_at-append b'S' (int_to_text (pos n)) []
            (AllDigits-Lacks b'S' (int_to_text (pos n)) (int_to_text-AllDigits n) (omega arith)),
        get_int-int_to_text n h,
      )
      refl

-- The digits of a fraction and of the whole seconds before it have no letter S.
take_seconds-parts :
    (d : Duration) (whole part : Text) (n f : ℤ)
    → AllDigits whole
    → AllDigits part
    → get_int whole ≡ ok n
    → get_int part ≡ ok f
    → take_seconds (d, whole ++ b'.' ∷ (part ++ b'S' ∷ [])) ≡ ok (set_seconds (set_frac_sec d f) n)
unfolding take_seconds
take_seconds-parts d whole part n f h k read read' =
    rw
      (
        sym (append_assoc whole (b'.' ∷ part) (b'S' ∷ [])),
        split_at-append b'S' (whole ++ b'.' ∷ part) []
            (Lacks-append b'S' whole (b'.' ∷ part) no_letter (omega arith, no_letter')),
        append_assoc whole (b'.' ∷ part) (b'S' ∷ []),
        split_at-append b'.' whole (part ++ b'S' ∷ []) (AllDigits-Lacks_dot whole h),
        split_at-Lacks b'S' whole no_letter,
        split_at-append b'S' part [] no_letter',
        read',
        split_at-Lacks b'S' whole no_letter,
        read,
      )
      refl
  where
    no_letter : Lacks b'S' whole
    no_letter = AllDigits-Lacks b'S' whole h (omega arith)

    no_letter' : Lacks b'S' part
    no_letter' = AllDigits-Lacks b'S' part k (omega arith)

pub take_seconds-fraction :
    (d : Duration) (n f : ℕ)
    → n ≤ max_int
    → f ≤ max_int
    → take_seconds
        (d, int_to_text (pos n) ++ b'.' ∷ (pad_zeros 3 (int_to_text (pos f)) ++ b'S' ∷ []))
      ≡ ok (set_seconds (set_frac_sec d (pos f)) (pos n))
take_seconds-fraction d n f h k =
    take_seconds-parts d (int_to_text (pos n)) (pad_zeros 3 (int_to_text (pos f))) (pos n) (pos f)
      (int_to_text-AllDigits n) (padded-AllDigits 3 f) (get_int-int_to_text n h)
      (get_int-pad_zeros 3 f k)

-- ===== src/Duration/Refused.antt =====
-- What `toString` writes and the constructor of `Duration` does not read back.
use xmlbeansxx.Prelude.{
  ℕ, ◌≡◌, refl, ap, ◌∙◌, inr, [], ◌∷◌, ◌++◌, append_assoc, Bool, true, false, ◌||◌, if◌then◌else◌,
  Text, ℤ, pos, negsuc, arith,
}
use xmlbeansxx.TextUtils.Trim.{AllSolid, AllSolid-append, collapse_solid}
use xmlbeansxx.Fields.{calendar_exception, no_flags, int_to_text}
use xmlbeansxx.Fields.Numbers.{
  AllDigits-AllSolid, Lacks, Lacks-append, AllDigits-Lacks, split_at-append, get_int-append,
}
use xmlbeansxx.Duration.{
  Duration, if_set, shown, shown_seconds, shown_time, shown_date, to_string, set_years, set_months,
  get_years, get_months, get_days, get_hours, get_minutes, get_seconds, get_frac_sec, of_text,
  read_fields, take_field, take_date_field,
}
use xmlbeansxx.Duration.Steps.{
  FieldOk, put, int_to_text-AllDigits, starts_with-digits, take_date_field-shown,
}
use xmlbeansxx.Duration.Clock.{FieldsOk, Lacks-shown}
use xmlbeansxx.Duration.Reading.{Quiet-years}
use xmlbeansxx.Duration.RoundTrip.{
  AllSolid-shown, AllSolid-to_string, letter_solid, read_signed-sign,
}

-- The text before the letter M: days, hours and the digits of the minutes.
abbrev taken : ℕ → Text → ℕ → Text
taken n hours m = int_to_text (pos n) ++ b'D' ∷ b'T' ∷ (hours ++ int_to_text (pos m))

taken_grouped :
    (n m : ℕ) (hours rest : Text)
    → (int_to_text (pos n) ++ b'D' ∷ [])
        ++ b'T' ∷ (hours ++ ((int_to_text (pos m) ++ b'M' ∷ []) ++ rest))
      ≡ taken n hours m ++ b'M' ∷ rest
taken_grouped n m hours rest = simp (append_assoc) refl

Lacks-taken : (n m : ℕ) (hours : Text) → Lacks b'M' hours → Lacks b'M' (taken n hours m)
Lacks-taken n m hours h =
    Lacks-append b'M' (int_to_text (pos n)) (b'D' ∷ b'T' ∷ (hours ++ int_to_text (pos m)))
      (AllDigits-Lacks b'M' (int_to_text (pos n)) (int_to_text-AllDigits n) (omega arith))
      (
        omega arith,
        (
          omega arith,
          Lacks-append b'M' hours (int_to_text (pos m)) h
              (AllDigits-Lacks b'M' (int_to_text (pos m)) (int_to_text-AllDigits m) (omega arith)),
        ),
      )

AllSolid-taken : (n m : ℕ) (hours : Text) → AllSolid hours → AllSolid (taken n hours m)
AllSolid-taken n m hours h =
    AllSolid-append (int_to_text (pos n)) (b'D' ∷ b'T' ∷ (hours ++ int_to_text (pos m)))
      (AllDigits-AllSolid (int_to_text (pos n)) (int_to_text-AllDigits n))
      (
        letter_solid b'D' (omega arith),
        (
          letter_solid b'T' (omega arith),
          AllSolid-append hours (int_to_text (pos m)) h
              (AllDigits-AllSolid (int_to_text (pos m)) (int_to_text-AllDigits m)),
        ),
      )

-- The step that looks for months takes the letter of the minutes.
take_months-refused :
    (r : Duration) (n m : ℕ) (hours rest : Text)
    → Lacks b'M' hours
    → AllSolid hours
    → take_date_field b'M' set_months (
      r,
      (int_to_text (pos n) ++ b'D' ∷ [])
          ++ b'T' ∷ (hours ++ ((int_to_text (pos m) ++ b'M' ∷ []) ++ rest)),
    )
      ≡ calendar_exception
unfolding take_date_field take_field
take_months-refused r n m hours rest h k =
    rw
      (
        taken_grouped n m hours rest,
        split_at-append b'M' (taken n hours m) rest (Lacks-taken n m hours h),
        get_int-append (int_to_text (pos n)) b'D' (b'T' ∷ (hours ++ int_to_text (pos m)))
            (AllSolid-taken n m hours k) (omega arith),
        append_assoc (int_to_text (pos n)) (b'D' ∷ b'T' ∷ (hours ++ int_to_text (pos m)))
            (b'M' ∷ rest),
        starts_with-digits (int_to_text (pos n)) b'D'
            ((b'T' ∷ (hours ++ int_to_text (pos m))) ++ b'M' ∷ rest) (int_to_text-AllDigits n)
            (omega arith),
      )
      refl

-- What is written where days and minutes are set, and months are not.
text_shape :
    (month day hour minutes seconds : Bool) (v n h m : ℤ) (rest : Text)
    → month ≡ false
    → day ≡ true
    → minutes ≡ true
    → shown month (if_set month v) b'M'
        ++ (shown day (if_set day n) b'D'
            ++ (if hour || minutes || seconds
                then b'T'
                  ∷ (shown hour (if_set hour h) b'H'
                      ++ (shown minutes (if_set minutes m) b'M' ++ rest))
                else []))
      ≡ (int_to_text n ++ b'D' ∷ [])
        ++ b'T' ∷ (shown hour (if_set hour h) b'H' ++ ((int_to_text m ++ b'M' ∷ []) ++ rest))
text_shape true day hour minutes seconds v n h m rest e f g = cc e
text_shape false false hour minutes seconds v n h m rest e f g = cc f
text_shape false true hour false seconds v n h m rest e f g = cc g
text_shape false true false true seconds v n h m rest e f g = refl
text_shape false true true true seconds v n h m rest e f g = refl

FieldOk-pos : (has : Bool) (v : ℤ) → FieldOk has v → has ≡ true → (n : ℕ) × (v ≡ pos n)
FieldOk-pos false v h e = cc e
FieldOk-pos true (pos n) h e = (n, refl)
FieldOk-pos true (negsuc n) h e = absurd h

months_refused :
    (d r : Duration)
    → FieldsOk d
    → d.flags.month ≡ false
    → d.flags.day ≡ true
    → d.flags.minutes ≡ true
    → take_date_field b'M' set_months (
      r,
      shown d.flags.month (get_months d) b'M'
          ++ (shown d.flags.day (get_days d) b'D' ++ shown_time d),
    )
      ≡ calendar_exception
unfolding get_months get_days get_hours get_minutes get_seconds get_frac_sec
months_refused d r w no_months days minutes =
    ap (λ t. take_date_field b'M' set_months (r, t))
      (text_shape d.flags.month d.flags.day d.flags.hour d.flags.minutes d.flags.seconds d.months
        d.days d.hours d.minutes (shown_seconds d) no_months days minutes)
    ∙ rw (n.1, m.1)
        (take_months-refused r n.0 m.0 (shown d.flags.hour (get_hours d) b'H') (shown_seconds d)
          (Lacks-shown b'M' d.flags.hour d.hours b'H' (omega arith) w.hours_ok (inr (omega arith)))
          (AllSolid-shown d.flags.hour d.hours b'H' (omega arith) w.hours_ok))
  where
    n : (n : ℕ) × (d.days ≡ pos n)
    n = FieldOk-pos d.flags.day d.days w.days_ok days

    m : (m : ℕ) × (d.minutes ≡ pos m)
    m = FieldOk-pos d.flags.minutes d.minutes w.minutes_ok minutes

fields_refused :
    (d r : Duration)
    → FieldsOk d
    → d.flags.month ≡ false
    → d.flags.day ≡ true
    → d.flags.minutes ≡ true
    → read_fields (r, shown_date d (shown_time d)) ≡ calendar_exception
unfolding read_fields get_years get_months get_days
fields_refused d r w no_months days minutes =
    rw
      (
        take_date_field-shown b'Y' set_years r d.flags.year d.years
            (shown d.flags.month (get_months d) b'M'
              ++ (shown d.flags.day (get_days d) b'D' ++ shown_time d))
            (omega arith) (omega arith) w.years_ok (λ e. Quiet-years d w),
        months_refused d (put d.flags.year set_years d.years r) w no_months days minutes,
      )
      refl

-- The constructor throws CalendarException for what `toString` writes for a duration with days
-- and minutes and without months, as in P5DT3M, since it looks for the months' letter M before it
-- comes to the time part; the fields that are set are not negative and fit an `int`, and a
-- fraction comes with seconds.
pub of_text-minutes_without_months :
    (garbage d : Duration)
    → FieldsOk d
    → d.flags.month ≡ false
    → d.flags.day ≡ true
    → d.flags.minutes ≡ true
    → of_text garbage (to_string d) ≡ calendar_exception
unfolding of_text to_string
of_text-minutes_without_months garbage d w no_months days minutes =
    rw (collapse_solid (to_string d) (AllSolid-to_string d w)) (
      read_signed-sign (record garbage { flags = no_flags }) d.neg (shown_date d (shown_time d))
      ∙ fields_refused d (record garbage { flags = no_flags; neg = d.neg }) w no_months days
          minutes)

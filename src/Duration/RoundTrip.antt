-- ===== src/Duration/RoundTrip.antt =====
-- `Duration(const std::string &)` after `toString`.
use xmlbeansxx.Prelude.{
  ℕ, ◌<◌, ◌≡◌, refl, ◌∙◌, inl, inr, [], ◌∷◌, ◌++◌, Bool, true, false, ◌||◌, if◌then◌else◌, Text, ℤ,
  pos, negsuc, arith, Bool-cases,
}
use xmlbeansxx.TextUtils.{is_white}
use xmlbeansxx.TextUtils.Trim.{AllSolid, AllSolid-append, collapse_solid}
use xmlbeansxx.Fields.{
  Result, ok, calendar_exception, boost_exception, out_of_range, no_flags, int_to_text, pad_zeros,
  starts_with,
}
use xmlbeansxx.Fields.Numbers.{AllDigits-AllSolid, padded-AllDigits}
use xmlbeansxx.Duration.{
  Duration, if_set, shown, shown_seconds, shown_time, shown_date, to_string, set_years, set_months,
  set_days, set_hours, set_minutes, set_seconds, set_frac_sec, get_years, get_months, get_days,
  get_hours, get_minutes, get_seconds, get_frac_sec, of_text, read_signed, read_fields,
}
use xmlbeansxx.Duration.Steps.{FieldOk, put, int_to_text-AllDigits}
use xmlbeansxx.Duration.Clock.{FieldsOk, Writable, point, point_seconds, put_time, put_date}
use xmlbeansxx.Duration.Reading.{read_fields-shown_date}

-- What is written has no white space.
pub letter_solid : (c : ℕ) → b' ' < c → is_white c ≡ false
unfolding is_white
letter_solid c h = ground arith

pub AllSolid-shown :
    (has : Bool) (v : ℤ) (letter : ℕ)
    → b' ' < letter
    → FieldOk has v
    → AllSolid (shown has (if_set has v) letter)
AllSolid-shown false v letter h k = tt
AllSolid-shown true (pos n) letter h k =
    AllSolid-append (int_to_text (pos n)) (letter ∷ [])
      (AllDigits-AllSolid (int_to_text (pos n)) (int_to_text-AllDigits n))
      (letter_solid letter h, tt)
AllSolid-shown true (negsuc n) letter h k = absurd k

AllSolid-point : (has : Bool) (f : ℤ) → FieldOk has f → AllSolid (point has f)
AllSolid-point false f h = tt
AllSolid-point true (pos n) h = (
  letter_solid b'.' (omega arith),
  AllDigits-AllSolid (pad_zeros 3 (int_to_text (pos n))) (padded-AllDigits 3 n),
)
AllSolid-point true (negsuc n) h = absurd h

AllSolid-point_seconds :
    (has : Bool) (s : ℤ) (has' : Bool) (f : ℤ)
    → FieldOk has s
    → FieldOk has' f
    → AllSolid (point_seconds has s has' f)
AllSolid-point_seconds false s has' f h k = tt
AllSolid-point_seconds true (pos n) has' f h k =
    AllSolid-append (int_to_text (pos n)) (point has' f ++ b'S' ∷ [])
      (AllDigits-AllSolid (int_to_text (pos n)) (int_to_text-AllDigits n))
      (AllSolid-append (point has' f) (b'S' ∷ []) (AllSolid-point has' f k)
        (letter_solid b'S' (omega arith), tt))
AllSolid-point_seconds true (negsuc n) has' f h k = absurd h

AllSolid-shown_time : (d : Duration) → FieldsOk d → AllSolid (shown_time d)
unfolding get_hours get_minutes get_seconds get_frac_sec
AllSolid-shown_time d w = elim (Bool-cases (d.flags.hour || d.flags.minutes || d.flags.seconds)) [
  | inl any ↦ rw any (
    letter_solid b'T' (omega arith),
    AllSolid-append (shown d.flags.hour (get_hours d) b'H')
        (shown d.flags.minutes (get_minutes d) b'M' ++ shown_seconds d)
        (AllSolid-shown d.flags.hour d.hours b'H' (omega arith) w.hours_ok)
        (AllSolid-append (shown d.flags.minutes (get_minutes d) b'M') (shown_seconds d)
          (AllSolid-shown d.flags.minutes d.minutes b'M' (omega arith) w.minutes_ok)
          (AllSolid-point_seconds d.flags.seconds d.seconds d.flags.fracsec d.frac_sec w.seconds_ok
            w.frac_ok)),
  )
  | inr nothing ↦ rw nothing tt
]

AllSolid-shown_date : (d : Duration) → FieldsOk d → AllSolid (shown_date d (shown_time d))
unfolding get_years get_months get_days
AllSolid-shown_date d w =
    AllSolid-append (shown d.flags.year (get_years d) b'Y') _
      (AllSolid-shown d.flags.year d.years b'Y' (omega arith) w.years_ok)
      (AllSolid-append (shown d.flags.month (get_months d) b'M') _
        (AllSolid-shown d.flags.month d.months b'M' (omega arith) w.months_ok)
        (AllSolid-append (shown d.flags.day (get_days d) b'D') _
          (AllSolid-shown d.flags.day d.days b'D' (omega arith) w.days_ok)
          (AllSolid-shown_time d w)))

AllSolid-signed :
    (neg : Bool) (s : Text) → AllSolid s → AllSolid ((if neg then b'-' ∷ [] else []) ++ b'P' ∷ s)
AllSolid-signed false s h = (letter_solid b'P' (omega arith), h)
AllSolid-signed true s h = (letter_solid b'-' (omega arith), (letter_solid b'P' (omega arith), h))

pub AllSolid-to_string : (d : Duration) → FieldsOk d → AllSolid (to_string d)
unfolding to_string
AllSolid-to_string d w = AllSolid-signed d.neg _ (AllSolid-shown_date d w)

-- The sign is read.
pub read_signed-sign :
    (r : Duration) (neg : Bool) (s : Text)
    → read_signed r ((if neg then b'-' ∷ [] else []) ++ b'P' ∷ s)
      ≡ read_fields (record r { neg = neg }, s)
unfolding starts_with
read_signed-sign r false s = refl
read_signed-sign r true s = refl

-- What is built: the fields that are set, in the order of their setters.
abbrev rebuilt : Duration → Duration → Duration
rebuilt garbage d = put_time d (put_date d (record garbage { flags = no_flags; neg = d.neg }))

of_text-rebuilt :
    (garbage d : Duration) → Writable d → of_text garbage (to_string d) ≡ ok (rebuilt garbage d)
unfolding of_text to_string
of_text-rebuilt garbage d w = rw (collapse_solid (to_string d) (AllSolid-to_string d w.fields_ok)) (
    read_signed-sign (record garbage { flags = no_flags }) d.neg (shown_date d (shown_time d))
    ∙ read_fields-shown_date d (record garbage { flags = no_flags; neg = d.neg }) w)

-- The same duration, by what can be observed of it.
pub record Agrees (d r : Duration) : Type 0 where
  pub years_agree : get_years r ≡ get_years d
  pub months_agree : get_months r ≡ get_months d
  pub days_agree : get_days r ≡ get_days d
  pub hours_agree : get_hours r ≡ get_hours d
  pub minutes_agree : get_minutes r ≡ get_minutes d
  pub seconds_agree : get_seconds r ≡ get_seconds d
  pub frac_agree : get_frac_sec r ≡ get_frac_sec d
  pub neg_agree : r.neg ≡ d.neg
  pub flags_agree : r.flags ≡ record d.flags { timezone = false }

-- What the steps leave, field by field.
abbrev laid : Duration → Duration → Duration
laid g d = record {
  years = if d.flags.year then d.years else g.years;
  months = if d.flags.month then d.months else g.months;
  days = if d.flags.day then d.days else g.days;
  hours = if d.flags.hour then d.hours else g.hours;
  minutes = if d.flags.minutes then d.minutes else g.minutes;
  seconds = if d.flags.seconds then d.seconds else g.seconds;
  frac_sec = if d.flags.fracsec then d.frac_sec else g.frac_sec;
  neg = d.neg;
  flags = record no_flags {
    year = if d.flags.year then true else false;
    month = if d.flags.month then true else false;
    day = if d.flags.day then true else false;
    hour = if d.flags.hour then true else false;
    minutes = if d.flags.minutes then true else false;
    seconds = if d.flags.seconds then true else false;
    fracsec = if d.flags.fracsec then true else false;
  };
}

put-set_years :
    (has : Bool) (v : ℤ) (d : Duration)
    → put has set_years v d ≡ record d {
      years = if has then v else d.years;
      flags = record d.flags { year = if has then true else d.flags.year };
    }
unfolding set_years
put-set_years false v d = refl
put-set_years true v d = refl

put-set_months :
    (has : Bool) (v : ℤ) (d : Duration)
    → put has set_months v d ≡ record d {
      months = if has then v else d.months;
      flags = record d.flags { month = if has then true else d.flags.month };
    }
unfolding set_months
put-set_months false v d = refl
put-set_months true v d = refl

put-set_days :
    (has : Bool) (v : ℤ) (d : Duration)
    → put has set_days v d ≡ record d {
      days = if has then v else d.days;
      flags = record d.flags { day = if has then true else d.flags.day };
    }
unfolding set_days
put-set_days false v d = refl
put-set_days true v d = refl

put-set_hours :
    (has : Bool) (v : ℤ) (d : Duration)
    → put has set_hours v d ≡ record d {
      hours = if has then v else d.hours;
      flags = record d.flags { hour = if has then true else d.flags.hour };
    }
unfolding set_hours
put-set_hours false v d = refl
put-set_hours true v d = refl

put-set_minutes :
    (has : Bool) (v : ℤ) (d : Duration)
    → put has set_minutes v d ≡ record d {
      minutes = if has then v else d.minutes;
      flags = record d.flags { minutes = if has then true else d.flags.minutes };
    }
unfolding set_minutes
put-set_minutes false v d = refl
put-set_minutes true v d = refl

put-set_seconds :
    (has : Bool) (v : ℤ) (d : Duration)
    → put has set_seconds v d ≡ record d {
      seconds = if has then v else d.seconds;
      flags = record d.flags { seconds = if has then true else d.flags.seconds };
    }
unfolding set_seconds
put-set_seconds false v d = refl
put-set_seconds true v d = refl

put-set_frac_sec :
    (has : Bool) (v : ℤ) (d : Duration)
    → put has set_frac_sec v d ≡ record d {
      frac_sec = if has then v else d.frac_sec;
      flags = record d.flags { fracsec = if has then true else d.flags.fracsec };
    }
unfolding set_frac_sec
put-set_frac_sec false v d = refl
put-set_frac_sec true v d = refl

rebuilt-laid : (garbage d : Duration) → rebuilt garbage d ≡ laid garbage d
rebuilt-laid garbage d =
    rw
      (
        put-set_years, put-set_months, put-set_days, put-set_hours, put-set_minutes,
        put-set_frac_sec, put-set_seconds,
      )
      refl

if_set-if :
    (has : Bool) (v w : ℤ)
    → if_set (if has then true else false) (if has then v else w) ≡ if_set has v
if_set-if false v w = refl
if_set-if true v w = refl

if_true : (has : Bool) → (if has then true else false) ≡ has
if_true false = refl
if_true true = refl

Agrees-laid : (garbage d : Duration) → Agrees d (laid garbage d)
unfolding get_years get_months get_days get_hours get_minutes get_seconds get_frac_sec
Agrees-laid g d = record {
  years_agree = if_set-if d.flags.year d.years g.years;
  months_agree = if_set-if d.flags.month d.months g.months;
  days_agree = if_set-if d.flags.day d.days g.days;
  hours_agree = if_set-if d.flags.hour d.hours g.hours;
  minutes_agree = if_set-if d.flags.minutes d.minutes g.minutes;
  seconds_agree = if_set-if d.flags.seconds d.seconds g.seconds;
  frac_agree = if_set-if d.flags.fracsec d.frac_sec g.frac_sec;
  neg_agree = refl;
  flags_agree =
      rw
        (
          if_true d.flags.year,
          if_true d.flags.month,
          if_true d.flags.day,
          if_true d.flags.hour,
          if_true d.flags.minutes,
          if_true d.flags.seconds,
          if_true d.flags.fracsec,
        )
        refl;
}

-- The constructor returns, and what it builds agrees with the duration.
abbrev pub Returns : Duration → Result Duration → Type 0
Returns d (ok r) = Agrees d r
Returns d calendar_exception = ⊥
Returns d boost_exception = ⊥
Returns d out_of_range = ⊥

-- The constructor, given what `toString` writes for a duration, returns, and what it builds has
-- the same fields set, the same sign and the same values; the fields of the duration that are set
-- are not negative and fit an `int`, a fraction comes with seconds, and days and minutes come
-- with months.
pub of_text-to_string :
    (garbage d : Duration) → Writable d → Returns d (of_text garbage (to_string d))
of_text-to_string garbage d w =
    rw (of_text-rebuilt garbage d w, rebuilt-laid garbage d) (Agrees-laid garbage d)

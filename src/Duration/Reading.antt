-- ===== src/Duration/Reading.antt =====
-- The text that `to_string` writes is read back by the constructor of `Duration`.
use xmlbeansxx.Prelude.{
  ℕ, ◌≤◌, ◌<◌, ◌≡◌, ◌≢◌, refl, ap, sym, ◌∙◌, ◌⊎◌, inl, inr, [], ◌∷◌, ◌++◌, Bool, true, false, ◌||◌,
  Text, ℤ, arith, length, length-append, Bool-cases,
}
use xmlbeansxx.Fields.{ok, int_to_text, starts_with}
use xmlbeansxx.Fields.Numbers.{Lacks, Lacks-append}
use xmlbeansxx.Duration.{
  Duration, if_set, shown, shown_seconds, shown_time, shown_date, set_years, set_months, set_days,
  set_hours, set_minutes, set_seconds, set_frac_sec, get_years, get_months, get_days, get_hours,
  get_minutes, get_seconds, get_frac_sec, read_time, read_rest, read_fields,
}
use xmlbeansxx.Duration.Steps.{put, Quiet, take_date_field-shown}
use xmlbeansxx.Duration.Clock.{
  FieldsOk, Writable, point, point_seconds, Lacks-shown, Lacks-point_seconds, clock, put_time,
  put_date, fields_of_time, fields_of_time-clock,
}

read_time_later : (d : Duration) (t : Text) → 1 ≤ length t → read_time d t ≡ fields_of_time (d, t)
read_time_later d [] h = absurd (omega arith)
read_time_later d (c ∷ t) h = refl

later_longer : (s t : Text) → 1 ≤ length t → 1 ≤ length (s ++ t)
later_longer s t h = omega (arith, length-append s t)

ends_longer : (s : Text) (c : ℕ) (t : Text) → 1 ≤ length ((s ++ c ∷ []) ++ t)
ends_longer [] c t = omega arith
ends_longer (d ∷ s) c t = omega arith

middle_longer : (s : Text) (c : ℕ) (t : Text) → 1 ≤ length (s ++ (t ++ c ∷ []))
middle_longer s c t = omega (arith, length-append s (t ++ c ∷ []), length-append t (c ∷ []))

-- Text follows the letter T wherever a field of the time part is set.
clock_longer :
    (hour : Bool) (h : ℤ) (minutes : Bool) (m : ℤ) (seconds : Bool) (s : ℤ) (frac : Bool) (f : ℤ)
    → (hour || minutes || seconds) ≡ true
    → 1
      ≤ length (
          shown hour (if_set hour h) b'H'
          ++ (shown minutes (if_set minutes m) b'M' ++ point_seconds seconds s frac f))
clock_longer true h minutes m seconds s frac f any = ends_longer (int_to_text h) b'H' _
clock_longer false h true m seconds s frac f any = ends_longer (int_to_text m) b'M' _
clock_longer false h false m true s frac f any = middle_longer (int_to_text s) b'S' (point frac f)
clock_longer false h false m false s frac f any = cc any

-- Nothing is set where no field of the time part is.
put_nothing :
    (r : Duration) (hour minutes seconds frac : Bool) (h m s f : ℤ)
    → (hour || minutes || seconds) ≡ false
    → (frac ≡ true → seconds ≡ true)
    → put seconds set_seconds s
        (put frac set_frac_sec f (put minutes set_minutes m (put hour set_hours h r)))
      ≡ r
put_nothing r true minutes seconds frac h m s f any both = cc any
put_nothing r false true seconds frac h m s f any both = cc any
put_nothing r false false true frac h m s f any both = cc any
put_nothing r false false false true h m s f any both = cc (both refl)
put_nothing r false false false false h m s f any both = refl

read_rest-shown_time :
    (d r : Duration) → FieldsOk d → read_rest (r, shown_time d) ≡ ok (put_time d r)
unfolding get_hours get_minutes get_seconds get_frac_sec starts_with
read_rest-shown_time d r w =
    elim (Bool-cases (d.flags.hour || d.flags.minutes || d.flags.seconds)) [
      | inl any ↦ rw any (
          read_time_later r (clock d) (
            clock_longer d.flags.hour d.hours d.flags.minutes d.minutes d.flags.seconds d.seconds
              d.flags.fracsec d.frac_sec any)
          ∙ fields_of_time-clock d r w)
      | inr nothing ↦ rw nothing (
          ap ok (
            sym (
              put_nothing r d.flags.hour d.flags.minutes d.flags.seconds d.flags.fracsec d.hours
                d.minutes d.seconds d.frac_sec nothing w.frac_in_seconds)))
    ]

-- No letter of the date part comes in the time part, or the time part begins with T.
Quiet-shown_time : (b : ℕ) (d : Duration) → Quiet b (shown_time d)
unfolding starts_with
Quiet-shown_time b d = elim (Bool-cases (d.flags.hour || d.flags.minutes || d.flags.seconds)) [
  | inl any ↦ rw any (inl refl)
  | inr nothing ↦ rw nothing (inr tt)
]

-- A letter that no set field of the time part has, T apart, is not in it.
Lacks-shown_time :
    (b : ℕ) (d : Duration)
    → FieldsOk d
    → b'9' < b
    → b ≢ b'T'
    → b ≢ b'H'
    → b ≢ b'S'
    → (d.flags.minutes ≡ false) ⊎ (b'M' ≢ b)
    → Lacks b (shown_time d)
unfolding get_hours get_minutes get_seconds get_frac_sec
Lacks-shown_time b d w h not_t not_h not_s minutes =
    elim (Bool-cases (d.flags.hour || d.flags.minutes || d.flags.seconds)) [
      | inl any ↦ rw any (
        (λ e. not_t (sym e)),
        Lacks-append b (shown d.flags.hour (get_hours d) b'H')
            (shown d.flags.minutes (get_minutes d) b'M' ++ shown_seconds d)
            (Lacks-shown b d.flags.hour d.hours b'H' h w.hours_ok (inr (λ e. not_h (sym e))))
            (Lacks-append b (shown d.flags.minutes (get_minutes d) b'M') (shown_seconds d)
              (Lacks-shown b d.flags.minutes d.minutes b'M' h w.minutes_ok minutes)
              (Lacks-point_seconds b d.flags.seconds d.seconds d.flags.fracsec d.frac_sec h not_s
                w.seconds_ok w.frac_ok)),
      )
      | inr nothing ↦ rw nothing tt
    ]

-- What the date letters find behind them.
Quiet-days : (d : Duration) → Quiet b'D' (shown_time d)
Quiet-days d = Quiet-shown_time b'D' d

Quiet-months :
    (d : Duration)
    → Writable d
    → d.flags.month ≡ false
    → Quiet b'M' (shown d.flags.day (get_days d) b'D' ++ shown_time d)
unfolding get_days get_hours get_minutes get_seconds get_frac_sec
Quiet-months d w none_yet = elim (Bool-cases d.flags.day) [
  | inl days ↦ inr (
      Lacks-append b'M' (shown d.flags.day (get_days d) b'D') (shown_time d)
        (Lacks-shown b'M' d.flags.day d.days b'D' (omega arith) w.fields_ok.days_ok
          (inr (omega arith)))
        (Lacks-shown_time b'M' d w.fields_ok (omega arith) (omega arith) (omega arith) (omega arith)
          (inl (elim (Bool-cases d.flags.minutes) [
            | inl minutes ↦ cc (w.months_between days minutes, none_yet)
            | inr e ↦ e
          ]))))
  | inr no_days ↦ rw no_days (Quiet-shown_time b'M' d)
]

pub Quiet-years :
    (d : Duration)
    → FieldsOk d
    → Quiet b'Y' (
        shown d.flags.month (get_months d) b'M'
        ++ (shown d.flags.day (get_days d) b'D' ++ shown_time d))
unfolding get_months get_days
Quiet-years d w = inr (
    Lacks-append b'Y' (shown d.flags.month (get_months d) b'M')
      (shown d.flags.day (get_days d) b'D' ++ shown_time d)
      (Lacks-shown b'Y' d.flags.month d.months b'M' (omega arith) w.months_ok (inr (omega arith)))
      (Lacks-append b'Y' (shown d.flags.day (get_days d) b'D') (shown_time d)
        (Lacks-shown b'Y' d.flags.day d.days b'D' (omega arith) w.days_ok (inr (omega arith)))
        (Lacks-shown_time b'Y' d w (omega arith) (omega arith) (omega arith) (omega arith)
          (inr (omega arith)))))

pub read_fields-shown_date :
    (d r : Duration)
    → Writable d
    → read_fields (r, shown_date d (shown_time d)) ≡ ok (put_time d (put_date d r))
unfolding read_fields get_years get_months get_days
read_fields-shown_date d r w =
    rw
      (
        take_date_field-shown b'Y' set_years r d.flags.year d.years
            (shown d.flags.month (get_months d) b'M'
              ++ (shown d.flags.day (get_days d) b'D' ++ shown_time d))
            (omega arith) (omega arith) w.fields_ok.years_ok (λ e. Quiet-years d w.fields_ok),
        take_date_field-shown b'M' set_months (put d.flags.year set_years d.years r) d.flags.month
            d.months (shown d.flags.day (get_days d) b'D' ++ shown_time d) (omega arith)
            (omega arith) w.fields_ok.months_ok (Quiet-months d w),
        take_date_field-shown b'D' set_days
            (put d.flags.month set_months d.months (put d.flags.year set_years d.years r))
            d.flags.day d.days (shown_time d) (omega arith) (omega arith) w.fields_ok.days_ok
            (λ e. Quiet-days d),
      )
      (read_rest-shown_time d (put_date d r) w.fields_ok)

-- ===== src/Duration/Clock.antt =====
-- The time part that `to_string` writes is read back.
use xmlbeansxx.Prelude.{
  ℕ, ◌<◌, ◌≡◌, ◌≢◌, refl, sym, ◌⊎◌, inl, inr, [], ◌∷◌, ◌++◌, Bool, true, false, if◌then◌else◌, Text,
  ℤ, pos, negsuc, arith,
}
use xmlbeansxx.Fields.{Result, ok, ◌>>=◌, int_to_text, pad_zeros, split_at}
use xmlbeansxx.Fields.Numbers.{AllDigits-Lacks, Lacks, Lacks-append, padded-AllDigits}
use xmlbeansxx.Duration.{
  Duration, Reader, if_set, shown, shown_seconds, set_years, set_months, set_days, set_hours,
  set_minutes, set_seconds, set_frac_sec, get_hours, get_minutes, get_seconds, get_frac_sec,
  take_field, take_seconds,
}
use xmlbeansxx.Duration.Steps.{
  FieldOk, put, int_to_text-AllDigits, take_field-shown, take_seconds-whole, take_seconds-fraction,
}

-- Fields that are set are neither negative nor too large, and a fraction comes with seconds.
pub record FieldsOk (d : Duration) : Type 0 where
  pub years_ok : FieldOk d.flags.year d.years
  pub months_ok : FieldOk d.flags.month d.months
  pub days_ok : FieldOk d.flags.day d.days
  pub hours_ok : FieldOk d.flags.hour d.hours
  pub minutes_ok : FieldOk d.flags.minutes d.minutes
  pub seconds_ok : FieldOk d.flags.seconds d.seconds
  pub frac_ok : FieldOk d.flags.fracsec d.frac_sec
  pub frac_in_seconds : d.flags.fracsec ≡ true → d.flags.seconds ≡ true

-- Days and minutes come with months between them.
pub record Writable (d : Duration) : Type 0 where
  pub fields_ok : FieldsOk d
  pub months_between : d.flags.day ≡ true → d.flags.minutes ≡ true → d.flags.month ≡ true

-- The fraction and the seconds, by their fields.
abbrev pub point : Bool → ℤ → Text
point has f = if has then b'.' ∷ pad_zeros 3 (int_to_text (if_set has f)) else []

abbrev pub point_seconds : Bool → ℤ → Bool → ℤ → Text
point_seconds has s has' f =
    if has then int_to_text (if_set has s) ++ (point has' f ++ b'S' ∷ []) else []

take_seconds-point_seconds :
    (d : Duration) (has : Bool) (s : ℤ) (has' : Bool) (f : ℤ)
    → FieldOk has s
    → FieldOk has' f
    → (has' ≡ true → has ≡ true)
    → take_seconds (d, point_seconds has s has' f)
      ≡ ok (put has set_seconds s (put has' set_frac_sec f d))
unfolding take_seconds split_at
take_seconds-point_seconds d false s false f h k both = refl
take_seconds-point_seconds d false s true f h k both = cc (both refl)
take_seconds-point_seconds d true (pos n) false f h k both = take_seconds-whole d n h
take_seconds-point_seconds d true (pos n) true (pos m) h k both = take_seconds-fraction d n m h k
take_seconds-point_seconds d true (pos n) true (negsuc m) h k both = absurd k
take_seconds-point_seconds d true (negsuc n) has' f h k both = absurd h

-- A letter that is not written is not there.
pub Lacks-shown :
    (b : ℕ) (has : Bool) (v : ℤ) (letter : ℕ)
    → b'9' < b
    → FieldOk has v
    → (has ≡ false) ⊎ (letter ≢ b)
    → Lacks b (shown has (if_set has v) letter)
Lacks-shown b false v letter h k other = tt
Lacks-shown b true (pos n) letter h k other =
    Lacks-append b (int_to_text (pos n)) (letter ∷ [])
      (AllDigits-Lacks b (int_to_text (pos n)) (int_to_text-AllDigits n) h)
      (elim other [ inl e ↦ cc | inr e ↦ (e, tt) ])
Lacks-shown b true (negsuc n) letter h k other = absurd k

Lacks-point : (b : ℕ) (has : Bool) (f : ℤ) → b'9' < b → FieldOk has f → Lacks b (point has f)
Lacks-point b false f h k = tt
Lacks-point b true (pos n) h k =
    (omega arith, AllDigits-Lacks b (pad_zeros 3 (int_to_text (pos n))) (padded-AllDigits 3 n) h)
Lacks-point b true (negsuc n) h k = absurd k

pub Lacks-point_seconds :
    (b : ℕ) (has : Bool) (s : ℤ) (has' : Bool) (f : ℤ)
    → b'9' < b
    → b ≢ b'S'
    → FieldOk has s
    → FieldOk has' f
    → Lacks b (point_seconds has s has' f)
Lacks-point_seconds b false s has' f h other k l = tt
Lacks-point_seconds b true (pos n) has' f h other k l =
    Lacks-append b (int_to_text (pos n)) (point has' f ++ b'S' ∷ [])
      (AllDigits-Lacks b (int_to_text (pos n)) (int_to_text-AllDigits n) h)
      (Lacks-append b (point has' f) (b'S' ∷ []) (Lacks-point b has' f h l)
        ((λ e. other (sym e)), tt))
Lacks-point_seconds b true (negsuc n) has' f h other k l = absurd k

-- The part behind the letter T.
abbrev pub clock : Duration → Text
clock d =
    shown d.flags.hour (get_hours d) b'H'
    ++ (shown d.flags.minutes (get_minutes d) b'M' ++ shown_seconds d)

-- The fields of the time part that are set are taken over.
abbrev pub put_time : Duration → Duration → Duration
put_time d r = put d.flags.seconds set_seconds d.seconds (
    put d.flags.fracsec set_frac_sec d.frac_sec
      (put d.flags.minutes set_minutes d.minutes (put d.flags.hour set_hours d.hours r)))

abbrev pub put_date : Duration → Duration → Duration
put_date d r =
    put d.flags.day set_days d.days
      (put d.flags.month set_months d.months (put d.flags.year set_years d.years r))

abbrev pub fields_of_time : Reader → Result Duration
fields_of_time r = do
  r' ← take_field b'H' set_hours r
  r'' ← take_field b'M' set_minutes r'
  take_seconds r''

pub fields_of_time-clock :
    (d r : Duration) → FieldsOk d → fields_of_time (r, clock d) ≡ ok (put_time d r)
unfolding get_hours get_minutes get_seconds get_frac_sec
fields_of_time-clock d r w =
    rw
      (
        take_field-shown b'H' set_hours r d.flags.hour d.hours
            (shown d.flags.minutes (get_minutes d) b'M' ++ shown_seconds d) (omega arith) w.hours_ok
            (λ e.
              Lacks-append b'H' (shown d.flags.minutes (get_minutes d) b'M') (shown_seconds d)
                (Lacks-shown b'H' d.flags.minutes d.minutes b'M' (omega arith) w.minutes_ok
                  (inr (omega arith)))
                (Lacks-point_seconds b'H' d.flags.seconds d.seconds d.flags.fracsec d.frac_sec
                  (omega arith) (omega arith) w.seconds_ok w.frac_ok)),
        take_field-shown b'M' set_minutes (put d.flags.hour set_hours d.hours r) d.flags.minutes
            d.minutes (shown_seconds d) (omega arith) w.minutes_ok
            (λ e.
              Lacks-point_seconds b'M' d.flags.seconds d.seconds d.flags.fracsec d.frac_sec
                (omega arith) (omega arith) w.seconds_ok w.frac_ok),
      )
      (take_seconds-point_seconds
        (put d.flags.minutes set_minutes d.minutes (put d.flags.hour set_hours d.hours r))
        d.flags.seconds d.seconds d.flags.fracsec d.frac_sec w.seconds_ok w.frac_ok
        w.frac_in_seconds)

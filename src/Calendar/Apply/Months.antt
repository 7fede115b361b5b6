-- ===== src/Calendar/Apply/Months.antt =====
-- The months of `applyDuration`.
use xmlbeansxx.Prelude.{
  ℕ, suc, ◌+◌, ◌-◌, ◌*◌, ◌/◌, ◌%◌, ◌≤◌, ◌≡◌, ◌≢◌, refl, ap, ◌∙◌, Bool, true, false, not, ◌&&◌, ◌==◌,
  Bool-cases, inl, inr, ℤ, pos, negsuc, ◌+ℤ◌, pos_part, minus_neg, arith,
}
use xmlbeansxx.Fields.{Result, ok, calendar_exception, boost_exception, out_of_range, ◌>>=◌}
use xmlbeansxx.Duration.{Duration}
use xmlbeansxx.Calendar.{Boost, Calendar, set_month, of_boost}
use xmlbeansxx.Calendar.Apply.{
  PosixTime, carry_months, new_month_year, apply_duration, start_time, shift_time, shift_days,
  of_ptime,
}

abbrev twelve_times : ℤ → ℤ
twelve_times (pos y) = pos (12 * y)
twelve_times (negsuc y) = negsuc (12 * y + 11)

-- The pair is a month from 1 to 12 and a year, and the month is number `s` if the months are counted
-- from January of the year 0 as number 1, and backwards from there.
pub record IsMonth (s : ℤ) (r : ℕ × ℤ) : Type 0 where
  pub from_one : 1 ≤ r.0
  pub to_twelve : r.0 ≤ 12
  pub counted : pos r.0 +ℤ twelve_times r.1 ≡ s

-- What a sum `s` of months may give: its own month, the month after it, or the first of all.
pub data Carried (has_month : Bool) (s : ℤ) (r : ℕ × ℤ) : Type 0 where
  right : ((n : ℕ) → s ≢ pos (12 * n)) → IsMonth s r → Carried has_month s r
  one_late : (n : ℕ) → s ≡ pos (12 * n) → IsMonth (s +ℤ pos 1) r → Carried has_month s r
  first : has_month ≡ false → s ≡ pos 12 → IsMonth (pos 1) r → Carried has_month s r

twelve_without_month :
    (p : ℕ) (has_month : Bool)
    → ((p == 12) && not has_month) ≡ true
    → (p ≡ 12) × (has_month ≡ false)
twelve_without_month p true h = ground arith
twelve_without_month p false h = (ground arith, refl)

multiple : (p : ℕ) → (p % 12 == 0) ≡ true → p ≡ 12 * (p / 12)
multiple p h = let none_left : p % 12 ≡ 0 = ground arith in omega arith

no_multiple : (p : ℕ) → (p % 12 == 0) ≡ false → (n : ℕ) → pos p ≢ pos (12 * n)
no_multiple p h n e =
    let same : p ≡ 12 * n = ap pos_part e in
    let left : p % 12 ≢ 0 = λ z. ground arith in omega arith

below_zero : (n : ℕ) → IsMonth (negsuc n) (12 - (n + 1) % 12, negsuc ((n + 1) / 12))
below_zero n = record {
  from_one = omega arith;
  to_twelve = omega arith;
  counted =
      minus_neg (12 - (n + 1) % 12) (suc (12 * ((n + 1) / 12) + 11)) (omega arith)
      ∙ ap negsuc (omega arith);
}

-- A sum of a month and the months of a duration, positive, 0 or negative, is carried to the year as
-- it should be unless it is a multiple of twelve that is 0 or above. Such a multiple, which stands
-- for a December, gives the January after it, or, where it is twelve and the calendar has no month,
-- the January of the year 0.
pub carry_months-Carried :
    (has_month : Bool) (s : ℤ) → Carried has_month s (carry_months has_month s)
unfolding carry_months
carry_months-Carried has_month (negsuc n) = right (λ k e. cc e) (below_zero n)
carry_months-Carried has_month (pos p) = elim (Bool-cases ((p == 12) && not has_month)) [
  | inl fixed ↦
      let (twelve, none) = twelve_without_month p has_month fixed in
      rw (twelve, none)
        (first refl refl
          (record { from_one = omega arith; to_twelve = omega arith; counted = refl }))
  | inr plain ↦ elim (Bool-cases (p % 12 == 0)) [
    | inl none_left ↦
        rw (plain, none_left)
          (one_late (p / 12) (ap pos (multiple p none_left)) (record {
            from_one = omega arith;
            to_twelve = omega arith;
            counted = ap pos (omega (arith, multiple p none_left));
          }))
    | inr some_left ↦
        rw (plain, some_left)
          (right (no_multiple p some_left) (record {
            from_one = ground arith;
            to_twelve = omega arith;
            counted = ap pos (omega arith);
          }))
  ]
]

after {ℓ} :
    {A B : Type ℓ} (r : Result A) (f : A → Result B) (b : B)
    → ((a : A) → f a ≢ ok b)
    → (r >>= f) ≢ ok b
after (ok a) f b h = h a
after calendar_exception f b h = λ e. cc e
after boost_exception f b h = λ e. cc e
after out_of_range f b h = λ e. cc e

-- A calendar without a year and a duration without months have no sum: `setMonth(0)` throws after
-- all else has been computed. A time of day, to which an hour is added, is an example.
pub apply_duration-no_year :
    {Ptime : Type 0} (boost : Boost) (lib : PosixTime Ptime) (garbage c : Calendar) (dur : Duration)
    (r : Calendar)
    → c.flags.year ≡ false
    → dur.flags.month ≡ false
    → apply_duration boost lib garbage c dur ≢ ok r
unfolding apply_duration new_month_year set_month
apply_duration-no_year boost lib garbage c dur r no_year no_months =
    after (of_boost (start_time lib c)) _ r (λ pt.
      after (of_boost (shift_time lib (not dur.neg) dur pt)) _ r (λ ret.
        after (of_boost (shift_days lib (not dur.neg) dur ret)) _ r (λ ret'. after _ _ r (λ ret''.
          after (of_ptime lib garbage ret'') _ r (λ cal. rw (no_year, no_months) (λ e. cc e))))))

-- ===== src/Calendar/Dates.antt =====
-- The date of a calendar after the setters of its fields.
use xmlbeansxx.Prelude.{
  ℕ, suc, ◌+◌, ◌-◌, ◌≤◌, ◌<◌, ◌≡◌, refl, ap, subst, ◌∙◌, some, Option-cases, Bool, true, false,
  ◌&&◌, Bool-cases, inl, inr, ℤ, pos, negsuc, ◌+ℤ◌, minus_pos, minus_neg, leb→le, is_between,
  is_zero, leb, ltb, arith,
}
use xmlbeansxx.Fields.{ok}
use xmlbeansxx.Calendar.{
  Boost, Calendar, Tm, keep_time, fix_tm, get_year, get_month, get_day, has_full_date_info,
  set_year, set_month, set_day, if_set, bad_year,
}

-- The date library gives a date's own year, month and day back.
abbrev pub KeepsDates : Boost → Type 0
KeepsDates lib =
    (y m d : ℤ) (t : Tm)
    → lib.tm_of_date y m d ≡ some t
    → (pos 1900 +ℤ t.tm_year ≡ y) × ((t.tm_mon +ℤ pos 1 ≡ m) × (t.tm_mday ≡ d))

-- A full date is one that the date library accepts.
abbrev pub DateOk : Boost → Calendar → Type 0
DateOk lib c =
    has_full_date_info c ≡ true
    → (t : Tm) × (lib.tm_of_date (get_year c) (get_month c) (get_day c) ≡ some t)

-- A date of the calendar that is as given, and right if it is full.
pub record Dated (lib : Boost) (y m d : ℤ) (c : Calendar) : Type 0 where
  pub year_is : get_year c ≡ y
  pub month_is : get_month c ≡ m
  pub day_is : get_day c ≡ d
  pub date_ok : DateOk lib c

if_set-true : (has : Bool) (n k : ℤ) → has ≡ true → n ≡ k → if_set has n ≡ k
if_set-true false n k h e = cc h
if_set-true true n k h e = e

pub all_set : (a b c : Bool) → (a && b && c) ≡ true → (a ≡ true) × ((b ≡ true) × (c ≡ true))
all_set true true true h = (refl, (refl, refl))
all_set true true false h = cc h
all_set true false c h = cc h
all_set false b c h = cc h

-- The date that comes back from the library is the one that went in.
renewed :
    (lib : Boost) (c : Calendar) (t : Tm)
    → KeepsDates lib
    → has_full_date_info c ≡ true
    → lib.tm_of_date (get_year c) (get_month c) (get_day c) ≡ some t
    → Dated lib (get_year c) (get_month c) (get_day c) record c { cal_tm = keep_time c.cal_tm t }
unfolding has_full_date_info get_year get_month get_day
renewed lib c t keeps full e = record {
  year_is = year;
  month_is = month;
  day_is = day;
  date_ok = λ f. (
    t,
    ap (λ y. lib.tm_of_date y (get_month n) (get_day n)) year
        ∙ ap (λ m. lib.tm_of_date (get_year c) m (get_day n)) month
        ∙ ap (λ d. lib.tm_of_date (get_year c) (get_month c) d) day
        ∙ e,
  );
}
  where
    n : Calendar
    n = record c { cal_tm = keep_time c.cal_tm t }

    set : (c.flags.year ≡ true) × ((c.flags.month ≡ true) × (c.flags.day ≡ true))
    set = all_set c.flags.year c.flags.month c.flags.day full

    kept :
        (pos 1900 +ℤ t.tm_year ≡ get_year c)
        × ((t.tm_mon +ℤ pos 1 ≡ get_month c) × (t.tm_mday ≡ get_day c))
    kept = keeps (get_year c) (get_month c) (get_day c) t e

    year : get_year n ≡ get_year c
    year = if_set-true c.flags.year (pos 1900 +ℤ t.tm_year) (get_year c) set.0 kept.0

    month : get_month n ≡ get_month c
    month = if_set-true c.flags.month (t.tm_mon +ℤ pos 1) (get_month c) set.1.0 kept.1.0

    day : get_day n ≡ get_day c
    day = if_set-true c.flags.day t.tm_mday (get_day c) set.1.1 kept.1.1

fix_tm-Dated :
    (lib : Boost) (c : Calendar)
    → KeepsDates lib
    → (fix_tm lib c).returned ≡ ok tt
    → Dated lib (get_year c) (get_month c) (get_day c) (fix_tm lib c).calendar
unfolding fix_tm
fix_tm-Dated lib c keeps back = elim (Bool-cases (has_full_date_info c)) [
  | inl full ↦ elim (Option-cases (lib.tm_of_date (get_year c) (get_month c) (get_day c))) [
    | inl none_there ↦ cc (back, full, none_there)
    | inr (t, e) ↦ rw (full, e) (renewed lib c t keeps full e)
  ]
  | inr part ↦
      rw part
        record { year_is = refl; month_is = refl; day_is = refl; date_ok = λ full. cc (full, part) }
]

pub month_shift : (n : ℕ) → 1 ≤ n → (pos n +ℤ negsuc 0) +ℤ pos 1 ≡ pos n
month_shift n h = rw (minus_pos n 1 h) (ap pos (omega arith))

pub year_shift : (y : ℤ) → pos 1900 +ℤ (y +ℤ negsuc 1899) ≡ y
year_shift (pos n) = elim (Bool-cases (leb 1900 n)) [
  | inl late ↦
      rw (minus_pos n 1900 (leb→le 1900 n late)) (ap pos (omega (arith, leb→le 1900 n late)))
  | inr early ↦
      rw (minus_neg n 1900 (ground arith)) (
        minus_pos 1900 (suc (1900 - suc n)) (omega arith)
        ∙ ap pos (omega (arith, is_early n early)))
]
  where
    is_early : (n : ℕ) → leb 1900 n ≡ false → n < 1900
    is_early n h = ground arith
year_shift (negsuc n) =
    minus_neg 1900 (suc (suc (n + 1899))) (omega arith) ∙ ap negsuc (omega arith)

Dated-from :
    (lib : Boost) (y m d : ℤ) (c : Calendar)
    → KeepsDates lib
    → get_year c ≡ y
    → get_month c ≡ m
    → get_day c ≡ d
    → (fix_tm lib c).returned ≡ ok tt
    → Dated lib y m d (fix_tm lib c).calendar
Dated-from lib y m d c keeps year month day back =
    subst (λ y. Dated lib y m d (fix_tm lib c).calendar) year
      (subst (λ m. Dated lib (get_year c) m d (fix_tm lib c).calendar) month
        (subst (λ d. Dated lib (get_year c) (get_month c) d (fix_tm lib c).calendar) day
          (fix_tm-Dated lib c keeps back)))

-- A call of `setDay` that returns leaves the given day beside the old year and month, and a date
-- that the date library accepts if all three are set; the library gives dates back as they are.
pub set_day-Dated :
    (lib : Boost) (d : ℤ) (c : Calendar)
    → KeepsDates lib
    → (set_day lib d c).returned ≡ ok tt
    → Dated lib (get_year c) (get_month c) d (set_day lib d c).calendar
unfolding set_day get_year get_month get_day
set_day-Dated lib d c keeps back = elim (Bool-cases (is_between 1 32 d)) [
  | inl good ↦
      rw good (Dated-from lib (get_year c) (get_month c) d _ keeps refl refl refl (rw good at back))
  | inr bad ↦ cc (back, bad)
]

-- A call of `setMonth` that returns leaves the given month beside the old year and day, and a date
-- that the date library accepts if all three are set; the library gives dates back as they are.
pub set_month-Dated :
    (lib : Boost) (m : ℤ) (c : Calendar)
    → KeepsDates lib
    → (set_month lib m c).returned ≡ ok tt
    → Dated lib (get_year c) m (get_day c) (set_month lib m c).calendar
unfolding set_month get_year get_month get_day
set_month-Dated lib (negsuc n) c keeps back = cc back
set_month-Dated lib (pos n) c keeps back = elim (Bool-cases (leb 1 n && ltb n 13)) [
  | inl good ↦ rw good (
      Dated-from lib (get_year c) (pos n) (get_day c) _ keeps refl (month_shift n (from_one n good))
        refl (rw good at back))
  | inr bad ↦ cc (back, bad)
]
  where
    from_one : (n : ℕ) → (leb 1 n && ltb n 13) ≡ true → 1 ≤ n
    from_one n h = ground arith

-- A call of `setYear` that returns leaves the given year beside the old month and day, and a date
-- that the date library accepts if all three are set; the library gives dates back as they are.
pub set_year-Dated :
    (lib : Boost) (y : ℤ) (c : Calendar)
    → KeepsDates lib
    → (set_year lib y c).returned ≡ ok tt
    → Dated lib y (get_month c) (get_day c) (set_year lib y c).calendar
unfolding set_year get_year get_month get_day
set_year-Dated lib y c keeps back = elim (Bool-cases (bad_year y)) [
  | inl bad ↦ cc (back, bad)
  | inr good ↦ elim (Bool-cases (is_zero y)) [
    | inl none_such ↦ cc (back, good, none_such)
    | inr there ↦
        rw (good, there)
          (Dated-from lib y (get_month c) (get_day c) _ keeps (year_shift y) refl refl
            (rw (good, there) at back))
  ]
]

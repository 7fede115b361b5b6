-- ===== src/Calendar/Accepted.antt =====
-- When the setters of a calendar's date return.
use xmlbeansxx.Prelude.{
  ◌≡◌, refl, subst, sym, none, some, true, false, Bool-cases, inl, inr, ℤ, negsuc, ◌+ℤ◌, is_between,
  is_zero,
}
use xmlbeansxx.Fields.{ok, calendar_exception, boost_exception}
use xmlbeansxx.Calendar.{
  Boost, Calendar, Tm, Outcome, throws, fix_tm, get_year, get_month, get_day, has_full_date_info,
  set_year, set_day, bad_year,
}
use xmlbeansxx.Calendar.Dates.{
  DateOk, KeepsDates, Dated, all_set, year_shift, set_day-Dated, set_year-Dated,
}

-- The date library accepts a date.
abbrev pub Accepts : Boost → ℤ → ℤ → ℤ → Type 0
Accepts lib y m d = (t : Tm) × (lib.tm_of_date y m d ≡ some t)

fix_tm-returned : (lib : Boost) (c : Calendar) → DateOk lib c → (fix_tm lib c).returned ≡ ok tt
unfolding fix_tm
fix_tm-returned lib c h = elim (Bool-cases (has_full_date_info c)) [
  | inl full ↦ rw (full, (h full).1) refl
  | inr part ↦ rw part refl
]

-- `setDay` returns for a day from 1 to 31 where the date library accepts the new date, or year or
-- month are not set, and the calendar then has that day, the old year and the old month, and a full
-- date is one that the library accepts; the
-- library gives dates back as they are.
pub set_day-Accepts :
    (lib : Boost) (d : ℤ) (c : Calendar)
    → KeepsDates lib
    → is_between 1 32 d ≡ true
    → (c.flags.year ≡ true → c.flags.month ≡ true → Accepts lib (get_year c) (get_month c) d)
    → ((set_day lib d c).returned ≡ ok tt)
      × Dated lib (get_year c) (get_month c) d (set_day lib d c).calendar
unfolding set_day get_year get_month get_day has_full_date_info
set_day-Accepts lib d c keeps good h = (back, set_day-Dated lib d c keeps back)
  where
    back : (set_day lib d c).returned ≡ ok tt
    back = rw good (
        fix_tm-returned lib _ (λ full.
          h (all_set c.flags.year c.flags.month true full).0
            (all_set c.flags.year c.flags.month true full).1.0))

-- The second calendar has the time of day of the first.
pub record SameTime (c c' : Calendar) : Type 0 where
  pub hour_is : c'.cal_tm.tm_hour ≡ c.cal_tm.tm_hour
  pub minutes_are : c'.cal_tm.tm_min ≡ c.cal_tm.tm_min
  pub seconds_are : c'.cal_tm.tm_sec ≡ c.cal_tm.tm_sec

-- A year and a day are set: with a month the date is full.
abbrev pub HasYearAndDay : Calendar → Type 0
HasYearAndDay c = (c.flags.year ≡ true) × (c.flags.day ≡ true)

-- How a call of `setMonth` ends: with a number that is no month, with a date that is none, or with
-- the month set.
pub data MonthSet (lib : Boost) (m : ℤ) (c : Calendar) (o : Outcome) : Type 0 where
  no_month : is_between 1 13 m ≡ false → o ≡ throws calendar_exception c → MonthSet lib m c o
  no_date :
      is_between 1 13 m ≡ true
      → HasYearAndDay c
      → lib.tm_of_date (get_year c) m (get_day c) ≡ none
      → o.returned ≡ boost_exception
      → MonthSet lib m c o
  set :
      is_between 1 13 m ≡ true
      → (HasYearAndDay c → Accepts lib (get_year c) m (get_day c))
      → o.returned ≡ ok tt
      → Dated lib (get_year c) m (get_day c) o.calendar
      → SameTime c o.calendar
      → MonthSet lib m c o

-- `setYear` returns for a year from -4713 to 9999999 other than 0 where the date library accepts
-- the new date, or month or day are not set, and the calendar then has that year, the old month
-- and the old day, and a full date is one that the library accepts; the library gives dates back
-- as they are.
pub set_year-Accepts :
    (lib : Boost) (y : ℤ) (c : Calendar)
    → KeepsDates lib
    → bad_year y ≡ false
    → is_zero y ≡ false
    → (c.flags.month ≡ true → c.flags.day ≡ true → Accepts lib y (get_month c) (get_day c))
    → ((set_year lib y c).returned ≡ ok tt)
      × Dated lib y (get_month c) (get_day c) (set_year lib y c).calendar
unfolding set_year get_year get_month get_day has_full_date_info
set_year-Accepts lib y c keeps good there h = (back, set_year-Dated lib y c keeps back)
  where
    back : (set_year lib y c).returned ≡ ok tt
    back =
        rw (good, there)
          (fix_tm-returned lib
            record c {
              cal_tm = record c.cal_tm { tm_year = y +ℤ negsuc 1899 };
              flags = record c.flags { year = true };
            }
            (λ full.
              subst (λ y. Accepts lib y (get_month c) (get_day c)) (sym (year_shift y))
                (h (all_set true c.flags.month c.flags.day full).1.0
                  (all_set true c.flags.month c.flags.day full).1.1)))

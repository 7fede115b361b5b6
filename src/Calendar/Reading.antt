-- ===== src/Calendar/Reading.antt =====
-- The setters of `Calendar` that read a text, and its constructor from a text.
pub mod Zones
pub mod Refused
use xmlbeansxx.Prelude.{
  ℕ, ◌+◌, [], ◌∷◌, Option, none, some, Bool, true, false, not, ◌&&◌, ◌||◌, ◌==◌, ltb, leb,
  if◌then◌else◌, length, Text, ℤ, pos, is_between,
}
use xmlbeansxx.TextUtils.{collapse}
use xmlbeansxx.Fields.{
  Result, ok, out_of_range, calendar_exception, ◌>>=◌, no_flags, get_int, Flags,
}
use xmlbeansxx.Calendar.{
  Boost, Calendar, Tm, Outcome, returns, throws, with_result, of_boost, ◌and_then◌, keep_time,
  fix_tm, set_year, set_month, set_day,
}
use xmlbeansxx.Calendar.Zone.{
  find, rfind, is_npos, size_minus, substr_at, Sign, find_sign, cut_zone, read_zone, int_at,
}

-- The frame that the functions share: the zone is cut off, the rest is read, and then the zone.
abbrev pub with_zone : Sign → Text → Calendar → (Text → Calendar → Outcome) → Outcome
with_zone sign pt c body =
    with_result c (cut_zone sign pt) (λ p. body p.1 c and_then (λ c'. read_zone sign p.0 c'))

-- The flag that the source sets once more, and `fixTm` once more.
abbrev pub again : Boost → (Flags → Flags) → Calendar → Outcome
again lib f c = fix_tm lib record c { flags = f c.flags }

-- `setgYear(const std::string &)`
unfoldable pub set_g_year : Boost → Text → Calendar → Outcome
set_g_year lib str c =
    let pt = collapse str in
    with_zone (find_sign (not (rfind b'-' pt == 1)) pt) pt c (λ rest c'.
      with_result c' (get_int rest)
        (λ y. set_year lib y c' and_then again lib (λ f. record f { year = true })))

-- `setgMonth(const std::string &)`
unfoldable pub set_g_month : Boost → Text → Calendar → Outcome
set_g_month lib str c =
    let pt = collapse str in
    with_zone (find_sign (size_minus (rfind b'-' pt) (find b'-' pt) == 7) pt) pt c (λ rest c'.
      with_result c' (int_at rest 2 (length rest))
        (λ m. set_month lib m c' and_then again lib (λ f. record f { month = true })))

-- `setgDay(const std::string &)`
unfoldable pub set_g_day : Boost → Text → Calendar → Outcome
set_g_day lib str c =
    let pt = collapse str in
    with_zone (find_sign (size_minus (rfind b'-' pt) (find b'-' pt) == 5) pt) pt c (λ rest c'.
      with_result c' (int_at rest 3 (length rest))
        (λ d. set_day lib d c' and_then again lib (λ f. record f { day = true })))

-- `setMonthDay(const std::string &)`
unfoldable pub set_month_day : Boost → Text → Calendar → Outcome
set_month_day lib str c =
    let pt = collapse str in
    with_zone (find_sign (size_minus (rfind b'-' pt) (find b'-' pt) == 7) pt) pt c (λ rest c'.
      with_result c' (int_at rest 2 2) (λ m. set_month lib m c' and_then (λ c''.
        let c₂ = record c'' { flags = record c''.flags { month = true } } in
        with_result c₂ (int_at rest 5 6)
          (λ d. set_day lib d c₂ and_then again lib (λ f. record f { day = true })))))

-- `setYearMonth(const std::string &)`; without a '-' the months begin at npos + 1, which is 0.
unfoldable pub set_year_month : Boost → Text → Calendar → Outcome
set_year_month lib str c =
    let pt = collapse str in
    with_zone (find_sign (not (rfind b'-' pt == find b'-' pt)) pt) pt c (λ rest c'.
      with_result c' (int_at rest 0 (find b'-' rest)) (λ y. set_year lib y c' and_then (λ c''.
        let c₂ = record c'' { flags = record c''.flags { year = true } } in
        with_result c₂ (int_at rest (size_minus (find b'-' rest + 1) 0) (length rest))
          (λ m. set_month lib m c₂ and_then again lib (λ f. record f { month = true })))))

-- The bytes other than one: `while (pt.find(b) != npos) pt.erase(pt.find(b), 1)`.
unfoldable pub erase_all : ℕ → Text → Text
erase_all b [] = []
erase_all b (c ∷ s) = let rest = erase_all b s in if c == b then rest else c ∷ rest

-- A date that is not special replaces the old one under the old time of day.
abbrev pub take_date : Boost → Option Tm → Calendar → Outcome
take_date lib none c = returns c
take_date lib (some t) c = fix_tm lib record c {
  cal_tm = keep_time c.cal_tm t;
  flags = record c.flags { year = true; month = true; day = true };
}

-- `setDate(const std::string &)`
unfoldable pub set_date : Boost → Text → Calendar → Outcome
set_date lib str c =
    let pt = collapse str in
    with_zone (find_sign (size_minus (rfind b'-' pt) (find b'-' pt) == 2) pt) pt c (λ rest c'.
      with_result c' (of_boost (lib.date_of_text (erase_all b'-' rest))) (λ t. take_date lib t c'))

-- The text behind the last dot, and the text before it.
unfoldable pub cut_fraction : Text → Result (Text × Text)
cut_fraction pt =
    if not (is_npos (rfind b'.' pt))
    then (do
      frac ← substr_at pt (rfind b'.' pt + 1) (length pt)
      rest ← substr_at pt 0 (rfind b'.' pt)
      ok (frac, rest))
    else ok ([], pt)

unfoldable pub read_fraction : Text → Calendar → Outcome
read_fraction [] c = returns c
read_fraction (b ∷ frac) c = with_result c (get_int (b ∷ frac)) (λ f.
    if is_between 0 1000 f
    then returns record c { frac_sec = f; flags = record c.flags { fracsec = true } }
    else throws calendar_exception c)

-- A time of day that is not special replaces the old one under the old date.
abbrev pub take_time : Option Tm → Calendar → Outcome
take_time none c = returns c
take_time (some t) c = returns record c {
  cal_tm = record c.cal_tm { tm_sec = t.tm_sec; tm_min = t.tm_min; tm_hour = t.tm_hour };
  flags = record c.flags { hour = true; minutes = true; seconds = true };
}

-- `setTime(const std::string &)`
unfoldable pub set_time : Boost → Text → Calendar → Outcome
set_time lib str c =
    let pt = collapse str in
    with_zone (find_sign (not (is_npos (rfind b'-' pt))) pt) pt c (λ rest c'.
      with_result c' (cut_fraction rest) (λ q.
        with_result c' (of_boost (lib.duration_of_text q.1))
          (λ t. take_time t c' and_then read_fraction q.0)))

abbrev pub take_date_time : Boost → Option Tm → Calendar → Outcome
take_date_time lib none c = returns c
take_date_time lib (some t) c = fix_tm lib record c {
  cal_tm = t;
  flags = record c.flags {
    year = true;
    month = true;
    day = true;
    hour = true;
    minutes = true;
    seconds = true;
  };
}

-- `Calendar(const std::string &)`, over fields that are not initialised.
unfoldable pub of_text : Boost → Text → Calendar → Outcome
of_text lib str garbage =
    let c = record garbage { flags = no_flags } in
    let pt = collapse str in
    with_zone (find_sign (ltb (find b'T' pt) (rfind b'-' pt)) pt) pt c (λ rest c'.
      with_result c' (cut_fraction rest) (λ q.
        with_result c' (of_boost (lib.time_of_text (erase_all b':' (erase_all b'-' q.1))))
          (λ t. take_date_time lib t c' and_then read_fraction q.0)))

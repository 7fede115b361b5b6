-- ===== src/Calendar/Printing.antt =====
-- The texts that `Calendar` writes.
use xmlbeansxx.Prelude.{Bool, [], ◌∷◌, ◌++◌, ◌&&◌, if◌then◌else◌, Text, codes}
use xmlbeansxx.Fields.{Result, ok, ◌>>=◌, int_to_text, pad_zeros}
use xmlbeansxx.Calendar.{
  Boost, Calendar, of_boost, get_year, get_month, get_day, get_hour, get_minutes, get_seconds,
  get_frac_sec, has_full_date_info, has_full_time_info,
}
use xmlbeansxx.Calendar.Zone.{two_digits, time_zone_to_string}

abbrev pub not_a_date_time : Text
not_a_date_time = codes "not-a-date-time"

abbrev pub shown_zone_if_set : Calendar → Text
shown_zone_if_set c = if c.flags.timezone then time_zone_to_string c else []

abbrev pub shown_fraction : Calendar → Text
shown_fraction c = if c.flags.fracsec then b'.' ∷ pad_zeros 3 (int_to_text (get_frac_sec c)) else []

-- hh:mm:ss(.sss)
abbrev pub shown_clock : Calendar → Text
shown_clock c =
    two_digits (get_hour c)
    ++ b':'
      ∷ (two_digits (get_minutes c) ++ b':' ∷ (two_digits (get_seconds c) ++ shown_fraction c))

unfoldable pub to_xsd_date_time : Boost → Calendar → Result Text
to_xsd_date_time lib c =
    if has_full_date_info c && has_full_time_info c
    then (do
      date ← of_boost (lib.iso_date (get_year c) (get_month c) (get_day c))
      ok (date ++ b'T' ∷ (shown_clock c ++ time_zone_to_string c)))
    else ok not_a_date_time

unfoldable pub to_xsd_date : Boost → Calendar → Result Text
to_xsd_date lib c =
    if has_full_date_info c
    then (do
      date ← of_boost (lib.iso_date (get_year c) (get_month c) (get_day c))
      ok (date ++ shown_zone_if_set c))
    else ok not_a_date_time

-- Where nothing is written, `ss >> ret` leaves or clears `ret`, by the version of the C++ library;
-- the text is then the first argument.
unfoldable pub to_xsd_time : Text → Calendar → Text
to_xsd_time unread c = if has_full_time_info c then shown_clock c ++ shown_zone_if_set c else unread

unfoldable pub to_xsd_year_month : Text → Calendar → Text
to_xsd_year_month unread c =
    if c.flags.year && c.flags.month
    then int_to_text (get_year c) ++ b'-' ∷ (two_digits (get_month c) ++ shown_zone_if_set c)
    else unread

unfoldable pub to_xsd_year : Text → Calendar → Text
to_xsd_year unread c =
    if c.flags.year then int_to_text (get_year c) ++ shown_zone_if_set c else unread

unfoldable pub to_xsd_day : Text → Calendar → Text
to_xsd_day unread c =
    if c.flags.day then codes "---" ++ (int_to_text (get_day c) ++ shown_zone_if_set c) else unread

unfoldable pub to_xsd_month : Text → Calendar → Text
to_xsd_month unread c =
    if c.flags.month
    then codes "--" ++ (int_to_text (get_month c) ++ shown_zone_if_set c)
    else unread

unfoldable pub to_xsd_month_day : Text → Calendar → Text
to_xsd_month_day unread c =
    if c.flags.month && c.flags.day
    then codes "--"
      ++ (int_to_text (get_month c) ++ b'-' ∷ (int_to_text (get_day c) ++ shown_zone_if_set c))
    else unread

abbrev pub part : Bool → Text → Text → Text
part has name t = if has then name ++ t else []

-- `toString`; a calendar without any field is left as `unread`.
abbrev pub all_parts : Calendar → Text
all_parts c =
    part c.flags.year (codes "Y_") (int_to_text (get_year c))
    ++ (part c.flags.month (codes "_M_") (int_to_text (get_month c))
        ++ (part c.flags.day (codes "_D_") (int_to_text (get_day c))
            ++ (part c.flags.hour (codes "_h_") (int_to_text (get_hour c))
                ++ (part c.flags.minutes (codes "_m_") (int_to_text (get_minutes c))
                    ++ (part c.flags.seconds (codes "_s_") (int_to_text (get_seconds c))
                        ++ (part c.flags.fracsec (codes "_f_") (int_to_text (get_frac_sec c))
                            ++ part c.flags.timezone (codes "_tz_") (time_zone_to_string c)))))))

abbrev pub or_unread : Text → Text → Text
or_unread unread [] = unread
or_unread unread (b ∷ t) = b ∷ t

unfoldable pub to_string : Text → Calendar → Text
to_string unread c = or_unread unread (all_parts c)

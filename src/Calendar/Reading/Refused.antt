-- ===== src/Calendar/Reading/Refused.antt =====
-- Texts of the documented form that the reading functions of `Calendar` refuse.
use xmlbeansxx.Prelude.{◌<◌, ◌≡◌, refl, length, Text}
use xmlbeansxx.TextUtils.{collapse}
use xmlbeansxx.Fields.{out_of_range}
use xmlbeansxx.Fields.Numbers.{Lacks}
use xmlbeansxx.Calendar.{Boost, Calendar, throws}
use xmlbeansxx.Calendar.Zone.{npos, find_sign, cut_zone}
use xmlbeansxx.Calendar.Zone.Positions.{rfind-Lacks, cut_at-Lacks}
use xmlbeansxx.Calendar.Reading.{set_g_year}

-- `setgYear` throws std::out_of_range for every year without a zone, such as 2004: it takes a '-'
-- that is not at position 1 for the sign of a zone, also where there is no '-' at all, and cuts
-- the text there. The trimmed text
-- has no '+', 'Z' or '-' and is shorter than npos.
pub set_g_year-no_zone :
    (lib : Boost) (str : Text) (c : Calendar)
    → Lacks b'+' (collapse str)
    → Lacks b'Z' (collapse str)
    → Lacks b'-' (collapse str)
    → length (collapse str) < npos
    → set_g_year lib str c ≡ throws out_of_range c
unfolding set_g_year find_sign cut_zone
set_g_year-no_zone lib str c no_plus no_z no_minus short =
    rw
      (
        rfind-Lacks b'+' (collapse str) no_plus,
        rfind-Lacks b'Z' (collapse str) no_z,
        rfind-Lacks b'-' (collapse str) no_minus,
      )
      (rw (cut_at-Lacks b'-' (collapse str) no_minus short) refl)

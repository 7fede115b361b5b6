-- ===== src/Calendar/Reading/Zones.antt =====
-- The zone that `timeZoneToString` writes behind a text is found and read by the reading functions.
use xmlbeansxx.Prelude.{
  ℕ, zero, suc, ◌+◌, ◌/◌, ◌%◌, ◌≤◌, ◌<◌, ◌≡◌, refl, ap, [], ◌∷◌, ◌++◌, Bool, true, false, length,
  Text, ℤ, pos, negsuc, negate, is_negative, is_zero, arith, ◌⊎◌, inl, inr, ◌&&◌, if◌then◌else◌,
}
use xmlbeansxx.Fields.{ok}
use xmlbeansxx.Fields.Numbers.{Lacks, Lacks-append}
use xmlbeansxx.Calendar.{Calendar, Outcome, returns, ◌and_then◌, is_dst_on}
use xmlbeansxx.Calendar.Zone.{
  npos, find_sign, cut_zone, read_zone, store_zone, shown_zone, time_zone_to_string, Sign, plus,
  utc, minus_sign,
}
use xmlbeansxx.Calendar.Zone.Positions.{rfind-Lacks, rfind-append, cut_at-append}
use xmlbeansxx.Calendar.Zone.Digits.{two_digits_lem, read_offsets-digits}
use xmlbeansxx.Calendar.Reading.{with_zone}

-- Offsets that are written so that they can be read: two digits each, and a negative offset has
-- hours.
abbrev pub OffsetsOk : ℤ → ℤ → Type 0
OffsetsOk (pos h) (pos m) = (h ≤ 99) × (m ≤ 99)
OffsetsOk (pos h) (negsuc m) = ⊥
OffsetsOk (negsuc h) (pos zero) = h < 99
OffsetsOk (negsuc h) (pos (suc m)) = ⊥
OffsetsOk (negsuc h) (negsuc m) = (h < 99) × (m < 99)

-- A zone text that a reading function takes apart, and the offsets it gives.
record Reads (has_minus : Bool) (zone : Text) (h m : ℤ) : Type 0 where
  sign : Sign
  found :
      (body : Text)
      → Lacks b'+' body
      → Lacks b'Z' body
      → length body < npos
      → (find_sign has_minus (body ++ zone) ≡ sign)
        × (cut_zone sign (body ++ zone) ≡ ok (zone, body))
  stored : (c : Calendar) → read_zone sign zone c ≡ returns (store_zone h m c)

-- A sign, two digits, a colon and two digits.
abbrev zone_of : ℕ → ℕ → ℕ → Text
zone_of sign h m =
    sign ∷ (b'0' + h / 10) ∷ (b'0' + h % 10) ∷ b':' ∷ (b'0' + m / 10) ∷ (b'0' + m % 10) ∷ []

-- The digits hold no letter and no sign.
Lacks-zone_of :
    (b h m : ℕ)
    → h ≤ 99
    → m ≤ 99
    → (b < b'0') ⊎ (b'Z' ≤ b)
    → Lacks b ((b'0' + h / 10) ∷ (b'0' + h % 10) ∷ b':' ∷ (b'0' + m / 10) ∷ (b'0' + m % 10) ∷ [])
Lacks-zone_of b h m k l out =
    (omega arith, (omega arith, (omega arith, (omega arith, (omega arith, tt)))))

utc_Reads : (has_minus : Bool) → Reads has_minus (b'Z' ∷ []) (pos 0) (pos 0)
unfolding find_sign cut_zone read_zone
utc_Reads has_minus = record {
  sign = utc;
  found = λ body no_plus no_z short. (
    rw
        (
          rfind-Lacks b'+' (body ++ b'Z' ∷ [])
              (Lacks-append b'+' body (b'Z' ∷ []) no_plus (omega arith, tt)),
          rfind-append b'Z' body [] tt,
        )
        (ground arith),
    cut_at-append b'Z' body [] tt,
  );
  stored = λ c. refl;
}

plus_Reads :
    (has_minus : Bool) (h m : ℕ)
    → h ≤ 99
    → m ≤ 99
    → Reads has_minus (zone_of b'+' h m) (pos h) (pos m)
unfolding find_sign cut_zone read_zone
plus_Reads has_minus h m k l = record {
  sign = plus;
  found = λ body no_plus no_z short. (
    rw (rfind-append b'+' body _ (Lacks-zone_of b'+' h m k l (inl (omega arith)))) (ground arith),
    cut_at-append b'+' body _ (Lacks-zone_of b'+' h m k l (inl (omega arith))),
  );
  stored = λ c. read_offsets-digits (λ n. n) b'+' h m c k l;
}

minus_Reads :
    (h m : ℕ) → h ≤ 99 → m ≤ 99 → Reads true (zone_of b'-' h m) (negate (pos h)) (negate (pos m))
unfolding find_sign cut_zone read_zone
minus_Reads h m k l = record {
  sign = minus_sign;
  found = λ body no_plus no_z short. (
    rw
        (
          rfind-Lacks b'+' (body ++ zone_of b'-' h m) (
              Lacks-append b'+' body (zone_of b'-' h m) no_plus
                (omega arith, Lacks-zone_of b'+' h m k l (inl (omega arith)))),
          rfind-Lacks b'Z' (body ++ zone_of b'-' h m) (
              Lacks-append b'Z' body (zone_of b'-' h m) no_z
                (omega arith, Lacks-zone_of b'Z' h m k l (inr (omega arith)))),
        )
        refl,
    cut_at-append b'-' body _ (Lacks-zone_of b'-' h m k l (inl (omega arith))),
  );
  stored = λ c. read_offsets-digits negate b'-' h m c k l;
}

-- What `timeZoneToString` writes while daylight saving is known to be off.
abbrev zone_text : ℤ → ℤ → Text
zone_text h m = if is_zero h && is_zero m then b'Z' ∷ [] else shown_zone h m

zone_text-Reads :
    (has_minus : Bool) (h m : ℤ)
    → OffsetsOk h m
    → (is_negative h ≡ true → has_minus ≡ true)
    → Reads has_minus (zone_text h m) h m
zone_text-Reads has_minus (pos zero) (pos zero) k n = utc_Reads has_minus
zone_text-Reads has_minus (pos zero) (pos (suc m)) k n =
    rw (two_digits_lem 0 k.0, two_digits_lem (suc m) k.1) (plus_Reads has_minus 0 (suc m) k.0 k.1)
zone_text-Reads has_minus (pos (suc h)) (pos m) k n =
    rw (two_digits_lem (suc h) k.0, two_digits_lem m k.1) (plus_Reads has_minus (suc h) m k.0 k.1)
zone_text-Reads has_minus (pos h) (negsuc m) k n = absurd k
zone_text-Reads false (negsuc h) m k n = cc (n refl)
zone_text-Reads true (negsuc h) (pos zero) k n =
    rw (two_digits_lem (suc h) k, two_digits_lem 0 (omega arith))
      (minus_Reads (suc h) 0 k (omega arith))
zone_text-Reads true (negsuc h) (pos (suc m)) k n = absurd k
zone_text-Reads true (negsuc h) (negsuc m) k n =
    rw (two_digits_lem (suc h) k.0, two_digits_lem (suc m) k.1)
      (minus_Reads (suc h) (suc m) k.0 k.1)

written-zone_text :
    (c : Calendar)
    → c.flags.timezone ≡ true
    → c.cal_tm.tm_isdst ≡ pos 0
    → time_zone_to_string c ≡ zone_text c.gmt_off_hours c.gmt_off_minutes
unfolding time_zone_to_string is_dst_on
written-zone_text c zone off =
    rw (zone, off) (go (is_zero c.gmt_off_hours) (is_zero c.gmt_off_minutes))
  where
    go :
        (a b : Bool)
        → (if a && b && true then b'Z' ∷ [] else shown_zone c.gmt_off_hours c.gmt_off_minutes)
          ≡ (if a && b then b'Z' ∷ [] else shown_zone c.gmt_off_hours c.gmt_off_minutes)
    go true true = refl
    go true false = refl
    go false b = refl

with_zone-Reads :
    (has_minus : Bool) (zone body : Text) (h m : ℤ) (c : Calendar) (f : Text → Calendar → Outcome)
    → Reads has_minus zone h m
    → Lacks b'+' body
    → Lacks b'Z' body
    → length body < npos
    → with_zone (find_sign has_minus (body ++ zone)) (body ++ zone) c f
      ≡ (f body c and_then (λ c'. returns (store_zone h m c')))
with_zone-Reads has_minus zone body h m c f r no_plus no_z short =
    rw (parts.0, parts.1) (ap (λ g. f body c and_then g) (λ i. λ c'. r.stored c' i))
  where
    parts :
        (find_sign has_minus (body ++ zone) ≡ r.sign)
        × (cut_zone r.sign (body ++ zone) ≡ ok (zone, body))
    parts = r.found body no_plus no_z short

-- A reading function that meets a text and behind it the zone that `timeZoneToString` writes
-- reads the text and then takes over the offsets of the zone: for a calendar with a time zone and
-- daylight saving off, whose offsets have two digits and a negative sign only with hours, a text
-- without '+' and 'Z' and shorter than npos, and a function that takes the zone for a negative one
-- if it is.
pub with_zone-time_zone_to_string :
    (c₀ : Calendar) (has_minus : Bool) (body : Text) (c : Calendar) (f : Text → Calendar → Outcome)
    → c₀.flags.timezone ≡ true
    → c₀.cal_tm.tm_isdst ≡ pos 0
    → OffsetsOk c₀.gmt_off_hours c₀.gmt_off_minutes
    → (is_negative c₀.gmt_off_hours ≡ true → has_minus ≡ true)
    → Lacks b'+' body
    → Lacks b'Z' body
    → length body < npos
    → with_zone
        (find_sign has_minus (body ++ time_zone_to_string c₀))
        (body ++ time_zone_to_string c₀)
        c
        f
      ≡ (f body c and_then (λ c'. returns (store_zone c₀.gmt_off_hours c₀.gmt_off_minutes c')))
with_zone-time_zone_to_string c₀ has_minus body c f zone off offsets negative no_plus no_z short =
    rw (written-zone_text c₀ zone off) (
      with_zone-Reads has_minus (zone_text c₀.gmt_off_hours c₀.gmt_off_minutes) body
        c₀.gmt_off_hours c₀.gmt_off_minutes c f
        (zone_text-Reads has_minus c₀.gmt_off_hours c₀.gmt_off_minutes offsets negative) no_plus
        no_z short)

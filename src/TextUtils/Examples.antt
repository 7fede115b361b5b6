-- ===== src/TextUtils/Examples.antt =====
-- Runs of the text tests, and the theorems at concrete texts.
use xmlbeansxx.Prelude.{◌≡◌, refl, true, false, codes}
use xmlbeansxx.TextUtils.{
  bool_to_string, is_white, skip_white, collapse, is_digit, are_digits, without_sign, check_integer,
  decimal_loop, check_decimal, check_date, in_base64, to_canonical_base64,
}
use xmlbeansxx.TextUtils.Trimmed.{Trimmed, collapse-Trimmed}

operations : Unit {0}
unfolding bool_to_string is_white skip_white collapse is_digit are_digits without_sign check_integer
    decimal_loop check_decimal check_date in_base64 to_canonical_base64
operations = tt

collapse_run : collapse (codes " a b\n") ≡ codes "a b"
unfolding operations
collapse_run = refl

integers : check_integer (codes "-12") ≡ true
unfolding operations
integers = refl

-- A sign alone passes for an integer and for a decimal.
sign_alone : check_integer (codes "-") ≡ true
unfolding operations
sign_alone = refl

dot_alone : check_decimal (codes "+.") ≡ true
unfolding operations
dot_alone = refl

two_dots : check_decimal (codes "1.2.3") ≡ false
unfolding operations
two_dots = refl

dates : check_date (codes "2004-02-31") ≡ true
unfolding operations
dates = refl

base64_run : to_canonical_base64 (codes "YW\nI=") ≡ codes "YWI="
unfolding operations
base64_run = refl

bools : bool_to_string true ≡ codes "true"
unfolding operations
bools = refl

collapse-Trimmed_example : Trimmed (codes " a ") (collapse (codes " a "))
collapse-Trimmed_example = collapse-Trimmed (codes " a ")

-- ===== src/QName.antt =====
-- Qualified names, from src/xmlbeansxx/QName.h.
-- The two halves of a name are `StoreString`s, read here as the texts they hold: `StoreString`'s
-- own equality is the module StoreString. The prefix takes no part in equality.
use xmlbeansxx.Prelude.{Text, [], text_eq, text_eq_iff, text_eq_refl, Bool, true, ◌&&◌, ◌≡◌, arith}

pub record QName : Type 0 where
  pub namespace_uri : Text
  pub local_part : Text
  pub prefix : Text

-- The constructor of two arguments, whose prefix is empty.
abbrev pub qname : Text → Text → QName
qname uri name = record { namespace_uri = uri; local_part = name; prefix = [] }

-- `QName()`.
abbrev pub empty_qname : QName
empty_qname = qname [] []

-- `operator==` of two names.
unfoldable pub qname_eq : QName → QName → Bool
qname_eq a b = text_eq a.namespace_uri b.namespace_uri && text_eq a.local_part b.local_part

pub qname_eq_refl : (a : QName) → qname_eq a a ≡ true
unfolding qname_eq
qname_eq_refl a = ground (arith, text_eq_refl a.namespace_uri, text_eq_refl a.local_part)

-- A name equal to `b` compares with any `c` as `b` does.
pub qname_eq_left : (a b c : QName) → qname_eq a b ≡ true → qname_eq a c ≡ qname_eq b c
unfolding qname_eq
qname_eq_left a b c h =
    ground
      (arith, text_eq_iff a.namespace_uri b.namespace_uri, text_eq_iff a.local_part b.local_part)

pub qname_eq_sym : (a b : QName) → qname_eq a b ≡ qname_eq b a
unfolding qname_eq
qname_eq_sym a b = ground (
  arith,
  text_eq_iff a.namespace_uri b.namespace_uri,
  text_eq_iff a.local_part b.local_part,
  text_eq_iff b.namespace_uri a.namespace_uri,
  text_eq_iff b.local_part a.local_part,
)

pub qname_eq_right : (a b c : QName) → qname_eq a b ≡ true → qname_eq c a ≡ qname_eq c b
qname_eq_right a b c h = cc (qname_eq_left a b c h, qname_eq_sym c a, qname_eq_sym c b)

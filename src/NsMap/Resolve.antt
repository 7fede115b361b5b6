-- ===== src/NsMap/Resolve.antt =====
-- `NSMap::getQName` reads back a printed name.
use xmlbeansxx.Prelude.{◌≡◌, ◌≢◌, refl, [], ◌∷◌, ◌++◌, none, some, Text, arith}
use xmlbeansxx.NsMap.{
  PrefixMap, ok, lookup, get_namespace_uri, split_colon, get_qname, or_empty, or_throw,
}

-- No byte of the text is a colon.
abbrev pub NoColon : Text → Type 0
NoColon [] = Unit {0}
NoColon (c ∷ s) = (c ≢ b':') × NoColon s

split_colon-NoColon : (s : Text) → NoColon s → split_colon s ≡ none
unfolding split_colon
split_colon-NoColon [] h = refl
split_colon-NoColon (c ∷ s) h = ground (arith, split_colon-NoColon s h.1)

pub split_colon-append : (p s : Text) → NoColon p → split_colon (p ++ b':' ∷ s) ≡ some (p, s)
unfolding split_colon
split_colon-append [] s h = refl
split_colon-append (c ∷ p) s h = ground (arith, split_colon-append p s h.1)

-- A prefixed name is read in the namespace of its prefix.
pub get_qname-prefixed :
    (m : PrefixMap) (p s ns : Text)
    → NoColon p
    → lookup p m ≡ some ns
    → get_qname m (p ++ b':' ∷ s) ≡ ok (record { namespace_uri = ns; local_part = s; prefix = p })
unfolding get_qname get_namespace_uri
get_qname-prefixed m p s ns np h = rw (split_colon-append p s np, h)

-- A name with no colon is read in the default namespace, which is empty where none is set.
pub get_qname-plain :
    (m : PrefixMap) (s : Text)
    → NoColon s
    → get_qname m s
      ≡ ok (record {
        namespace_uri = or_empty (or_throw (lookup [] m));
        local_part = s;
        prefix = [];
      })
unfolding get_qname get_namespace_uri
get_qname-plain m s ns = rw (split_colon-NoColon s ns)

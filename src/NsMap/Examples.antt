-- ===== src/NsMap/Examples.antt =====
-- Runs of `NSMap`, and its theorems at a concrete map.
use xmlbeansxx.Prelude.{◌≡◌, refl, [], ◌∷◌, some, false, codes, text_eq, text_lt}
use xmlbeansxx.NsMap.{
  PrefixMap, ok, beans_exception, lookup, assign, is_set_namespace_uri, is_set_prefix,
  add_namespace, get_namespace_uri, get_prefix, to_string, split_colon, get_qname,
}
use xmlbeansxx.NsMap.Bindings.{lookup-add_namespace, lookup-get_prefix}

operations : Unit {0}
unfolding lookup assign is_set_namespace_uri is_set_prefix add_namespace get_namespace_uri
    get_prefix to_string split_colon get_qname text_eq text_lt
operations = tt

abbrev bound : PrefixMap
bound = (codes "a", codes "urn:x") ∷ (codes "c", codes "urn:x") ∷ []

-- A new prefix goes to its place in the order.
order_run :
    (add_namespace bound (codes "b") (codes "urn:y") false).0
    ≡ (codes "a", codes "urn:x") ∷ (codes "b", codes "urn:y") ∷ (codes "c", codes "urn:x") ∷ []
unfolding operations
order_run = refl

unforced_run : add_namespace bound (codes "a") (codes "urn:y") false ≡ (bound, false)
unfolding operations
unforced_run = refl

unknown_prefix_run : get_qname bound (codes "q:item") ≡ beans_exception
unfolding operations
unknown_prefix_run = refl

qname_run :
    get_qname bound (codes "a:item")
    ≡ ok (record { namespace_uri = codes "urn:x"; local_part = codes "item"; prefix = codes "a" })
unfolding operations
qname_run = refl

lookup-add_namespace_example :
    lookup (codes "b") (add_namespace bound (codes "b") (codes "urn:y") false).0
    ≡ some (codes "urn:y")
unfolding operations
lookup-add_namespace_example =
    (lookup-add_namespace bound (codes "b") (codes "b") (codes "urn:y") false).0

lookup-get_prefix_example : lookup (codes "a") bound ≡ some (codes "urn:x")
unfolding operations
lookup-get_prefix_example =
    lookup-get_prefix bound (codes "urn:x") (codes "a") (refl, (tt, tt)) refl

-- ===== src/XmlContext/Examples.antt =====
-- Runs of contexts and serializers, and their theorems at concrete ones.
use xmlbeansxx.Prelude.{suc, ◌≡◌, refl, [], ◌∷◌, some, codes, text_eq, text_lt, length, arith}
use xmlbeansxx.QName.{QName}
use xmlbeansxx.NsMap.{
  ok, beans_exception, lookup, assign, is_set_prefix, get_namespace_uri, get_prefix, split_colon,
  get_qname,
}
use xmlbeansxx.NsMap
use xmlbeansxx.XmlContext.{
  XmlContext, add_namespace, remember, restore_last, restore_loop, restore, get_last_stored_links,
  new_context, NsMapSerializer, print_prefix_name, get_next_prefix, declare_and_print, cprint_qname,
  print_new_ns,
}
use xmlbeansxx.XmlContext.Scopes.{declare, declare_all, nested, Back, restore-nested}
use xmlbeansxx.XmlContext.Fresh.{IsFresh, get_next_prefix-IsFresh}
use xmlbeansxx.XmlContext.Printing.{ReadsBack, cprint_qname-ReadsBack}

operations : Unit {0}
unfolding lookup assign is_set_prefix get_namespace_uri get_prefix split_colon get_qname text_eq
    text_lt NsMap.add_namespace add_namespace remember restore_last restore_loop restore
    get_last_stored_links new_context print_prefix_name get_next_prefix declare_and_print
    cprint_qname print_new_ns declare_all
operations = tt

abbrev fresh : NsMapSerializer
fresh = record { context = new_context; prefix_prefix = []; current = 0 }

abbrev po_item : QName
po_item = record { namespace_uri = codes "urn:po"; local_part = codes "item"; prefix = [] }

abbrev after_item : NsMapSerializer
after_item = (declare_and_print (record fresh { current = 1 }) (codes "a") po_item).0

print_run : cprint_qname 2 fresh po_item ≡ some (after_item, codes "a:item")
unfolding operations
print_run = refl

print_new_ns_run : print_new_ns after_item ≡ ok (codes " xmlns:a=\"urn:po\"")
unfolding operations
print_new_ns_run = refl

-- A prefix that was free before stays in the map, bound to the empty namespace, after `restore`.
stays_set :
    get_qname
      (restore_loop 1 (declare new_context (codes "p", codes "urn:x"))).prefix_map
      (codes "p:item")
    ≡ ok (record { namespace_uri = []; local_part = codes "item"; prefix = codes "p" })
unfolding operations
stays_set = refl

restore-nested_example :
    (c' : XmlContext) × (restore
        (nested new_context ((codes "a", codes "urn:x") ∷ []) ((codes "b", codes "urn:y") ∷ []))
      ≡ some c')
    × Back new_context c'
    × (c'.remembered ≡ length new_context.restore_links ∷ new_context.remembered)
restore-nested_example =
    restore-nested new_context ((codes "a", codes "urn:x") ∷ []) ((codes "b", codes "urn:y") ∷ [])

get_next_prefix-IsFresh_example :
    IsFresh
      ((codes "a", codes "urn:x") ∷ [])
      []
      0
      2
      (get_next_prefix 2 ((codes "a", codes "urn:x") ∷ []) [] 0)
get_next_prefix-IsFresh_example =
    get_next_prefix-IsFresh ((codes "a", codes "urn:x") ∷ []) [] 0 (omega arith)

cprint_qname-ReadsBack_example :
    ReadsBack po_item (cprint_qname (suc (length fresh.context.prefix_map)) fresh po_item)
unfolding operations
cprint_qname-ReadsBack_example =
    cprint_qname-ReadsBack fresh po_item
      (record { sorted = (tt, tt); plain = (tt, tt); plain_prefix = tt; letters = omega arith }) tt
      (omega arith) (λ _. refl)

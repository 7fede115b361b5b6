-- ===== src/Query/Examples.antt =====
-- Queries on a document with three elements.
use xmlbeansxx.Prelude.{
  ℕ, zero, suc, ◌≡◌, refl, [], ◌∷◌, Option, none, some, codes, text_eq, text_lt, if◌then◌else◌,
}
use xmlbeansxx.QName.{qname, qname_eq}
use xmlbeansxx.Dict.{dict_el}
use xmlbeansxx.Heap.{Node, Heap, ok, plain_node, text_node}
use xmlbeansxx.Contents
use xmlbeansxx.Walker
use xmlbeansxx.Query.{
  query_expr, query_string, query_attribute, op_eq, find_attr, find_elems, meaning, first_match,
  query,
}

abbrev item : ℕ → Node
item id = record (plain_node 0) { attrs = dict_el (qname [] (codes "id")) (some id) ∷ [] }

abbrev cells : ℕ → Option Node
cells zero = some record (plain_node 0) {
  elems =
      dict_el (qname [] (codes "other")) (some 2)
      ∷ dict_el (qname [] (codes "item")) none
      ∷ dict_el (qname [] (codes "item")) (some 1)
      ∷ dict_el (qname [] (codes "item")) (some 2)
      ∷ [];
}
cells (suc zero) = some (item 3)
cells (suc (suc zero)) = some (item 4)
cells (suc (suc (suc zero))) = some (text_node 0 (codes "7"))
cells (suc (suc (suc (suc p)))) = some (text_node 0 (codes "8"))

abbrev document : Heap
document = record { cell = cells; next = 5 }

-- The first `item` whose attribute `id` is 8.
query-run :
    query
      (Walker.get_simple_content 2)
      (λ b. if b then codes "true" else codes "false")
      (some 0)
      (codes "item")
      (query_expr (query_attribute (codes "id")) op_eq (query_string (codes "8")))
      document
    ≡ (ok (some 2), document)
unfolding query find_elems find_attr meaning first_match text_eq text_lt qname_eq Walker.get_elems
    Walker.get_attr_objects Walker.get_simple_content Contents.get_elems Contents.named_elems
    Contents.get_attrs2 Contents.get_simple_content
query-run = refl

-- ===== src/Contents/Examples.antt =====
-- Runs of the operations of `Contents` on a node with an element and a text.
use xmlbeansxx.Prelude.{ℕ, zero, suc, ◌≡◌, refl, [], ◌∷◌, Option, none, some, codes, text_eq}
use xmlbeansxx.QName.{QName, qname, qname_eq}
use xmlbeansxx.Dict.{dict_el}
use xmlbeansxx.Heap.{Node, Heap, ok, fault, illegal_state, plain_node, text_node, update}
use xmlbeansxx.Contents.{
  text_element_name, set_attr, get_simple_content, join_texts, elem_array, set_simple_content,
  clone, clone_dict,
}
use xmlbeansxx.Contents.Simple.{ContentSet, set_simple_content-ContentSet}

abbrev item_name : QName
item_name = qname [] (codes "item")

abbrev root : Node
root = record (plain_node 0) {
  elems = dict_el item_name (some 1) ∷ dict_el text_element_name (some 1) ∷ [];
}

abbrev cells : ℕ → Option Node
cells zero = some root
cells (suc zero) = some (text_node 0 (codes "a"))
cells (suc (suc p)) = none

abbrev document : Heap
document = record { cell = cells; next = 2 }

set_simple_content-ContentSet_example :
    ContentSet (codes "b") 0 root (set_simple_content 9 0 (codes "b") document)
set_simple_content-ContentSet_example =
    set_simple_content-ContentSet 9 0 (codes "b") document root refl refl refl

get_simple_content-run : (get_simple_content 2 0 document).0 ≡ ok (codes "a")
unfolding get_simple_content join_texts elem_array qname_eq text_eq
get_simple_content-run = refl

-- A text has no attributes.
set_attr-run : set_attr 1 item_name none document ≡ (fault illegal_state, document)
unfolding set_attr
set_attr-run = refl

-- The copy of a node that stands at two places is made twice.
clone-run : (clone 3 0 document).1.next ≡ 5
unfolding clone clone_dict update
clone-run = refl

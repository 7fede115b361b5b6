-- ===== src/Walker/Examples.antt =====
-- Runs of `Contents::Walker` on a node with two elements.
use xmlbeansxx.Prelude.{
  ℕ, zero, suc, false, text_eq, arith, ◌≡◌, refl, [], ◌∷◌, Option, none, some, codes, pos,
}
use xmlbeansxx.QName.{QName, qname, qname_eq}
use xmlbeansxx.Dict.{dict_el}
use xmlbeansxx.Heap.{Node, Heap, ok, fault, null_ptr_exception, plain_node}
use xmlbeansxx.Heap.{M, alloc, update}
use xmlbeansxx.Dict
use xmlbeansxx.Schema.{
  SchemaType, TypeSystem, ws_collapse, init, lookup, assign, put_rows, property_elem, add_type,
  add_document_type, create_by_name, create_document_by_name, create_sub_object,
  create_sub_contents, mixed_content,
}
use xmlbeansxx.Walker.Creation.{Declares, NewContents, MadeOnce, cget_elem-MadeOnce}
use xmlbeansxx.Walker.{get_simple_content, get_elem}
use xmlbeansxx.Walker.Arrays.{ArraySet, get_elem_array-set_elem_array}

abbrev item_name : QName
item_name = qname [] (codes "item")

abbrev root : Node
root = record (plain_node 0) {
  elems =
      dict_el item_name (some 1)
      ∷ dict_el (qname [] (codes "other")) (some 2)
      ∷ dict_el item_name none
      ∷ [];
}

abbrev cells : ℕ → Option Node
cells zero = some root
cells (suc p) = some (plain_node 0)

abbrev document : Heap
document = record { cell = cells; next = 5 }

get_elem_array-set_elem_array_example :
    ArraySet item_name (some 3 ∷ none ∷ some 4 ∷ []) 0 root document
get_elem_array-set_elem_array_example =
    get_elem_array-set_elem_array 0 item_name (some 3 ∷ none ∷ some 4 ∷ []) document root refl refl

-- An object without contents.
get_elem-run : get_elem none item_name (pos 0) document ≡ (fault null_ptr_exception, document)
unfolding get_elem
get_elem-run = refl

get_simple_content-run : get_simple_content 0 none document ≡ (ok [], document)
unfolding get_simple_content
get_simple_content-run = refl

-- A type with one element, the type of that element, and the document type around it.
abbrev blank : SchemaType
blank = record {
  whitespace_rule = ws_collapse;
  attributes = [];
  elements = [];
  create_fn = none;
  name = qname [] [];
  document_element_name = qname [] [];
  is_array = false;
  fraction_digits = pos 0;
  content_type = mixed_content;
}

abbrev other_name : QName
other_name = qname [] (codes "new")

abbrev type_name : QName
type_name = qname [] (codes "T")

abbrev type_at : ℕ → SchemaType
type_at zero = property_elem (init blank) (([], codes "new", [], codes "T", []) ∷ [])
type_at (suc zero) = record blank { name = type_name; create_fn = some 1 }
type_at (suc (suc p)) = record blank {
  create_fn = some 2;
  document_element_name = other_name;
  elements =
      (other_name, record { order = 1; schema_type_name = type_name; singleton_default = [] }) ∷ [];
}

abbrev registered_types : TypeSystem
registered_types =
    add_document_type type_at
      (add_type type_at record { type_creators = []; document_type_creators = [] } 1) 2

root-Declares : Declares type_at registered_types 0 other_name 1
unfolding property_elem init put_rows lookup assign add_document_type add_type qname_eq text_eq
root-Declares = record {
  property = record { order = 1; schema_type_name = type_name; singleton_default = [] };
  element = refl;
  type = 1;
  registered = refl;
  creator = refl;
}

abbrev new_contents : ℕ → M ℕ
new_contents t = alloc record { attrs = []; elems = []; st = t; kind = root.kind }

document-NewContents : NewContents new_contents 1 0 root document
unfolding update
document-NewContents = record {
  q = 5;
  after = (new_contents 1 document).1;
  node = record { attrs = []; elems = []; st = 1; kind = root.kind };
  run = refl;
  parent_at = refl;
  node_at = refl;
  apart = λ e. omega arith;
  typed = refl;
}

no_new : (Dict.find root.elems other_name (pos 0)).value ≡ none
unfolding Dict.find qname_eq text_eq
no_new = refl

cget_elem-MadeOnce_example :
    MadeOnce
      (create_sub_contents type_at registered_types 9 2 new_contents)
      0
      other_name
      0
      1
      document
cget_elem-MadeOnce_example =
    cget_elem-MadeOnce type_at registered_types 9 1 new_contents 0 other_name 0 1 document root refl
      refl no_new root-Declares document-NewContents

-- A name that only a document type knows: the type of the document's element.
sub_object-run :
    create_sub_object type_at registered_types 9 2 1 other_name document ≡ (ok (some 1), document)
unfolding create_sub_object create_document_by_name create_by_name lookup assign add_document_type
    add_type qname_eq text_eq
sub_object-run = refl

-- ===== src/Documents/Examples.antt =====
-- The settings of XmlOptions, and an object put into a document.
use xmlbeansxx.Prelude.{◌≡◌, refl, [], ◌∷◌, none, some, true, false, codes, text_eq}
use xmlbeansxx.QName.{qname, qname_eq}
use xmlbeansxx.Dict.{dict_el}
use xmlbeansxx.Heap.{Heap, ok, plain_node, update}
use xmlbeansxx.Contents
use xmlbeansxx.Walker
use xmlbeansxx.Output.{with_inner_types}
use xmlbeansxx.Documents.{
  default_options, set_serialize_types, set_serialize_inner_types, set_serialize_persistent,
  serialize_persistent, set_xml_object_or_get_inner_element,
}

-- Persistent documents are written with inner types.
persistent : with_inner_types serialize_persistent ≡ true
unfolding serialize_persistent set_serialize_persistent set_serialize_inner_types
    set_serialize_types default_options
persistent = refl

-- An object of another class gives its one element.
abbrev holder : Heap
holder = record {
  cell =
      update (λ p. none) 0
        record (plain_node 0) { elems = dict_el (qname [] (codes "a")) (some 5) ∷ [] };
  next = 1;
}

inner :
    (set_xml_object_or_get_inner_element 0 false
      (record { contents = none; origin = 3 })
      (record { contents = some 0; origin = 4 })
      holder).0
    ≡ ok (record { contents = none; origin = 3 }, record { contents = some 5; origin = 0 })
unfolding set_xml_object_or_get_inner_element Walker.get_elems Contents.get_elems
    Contents.named_elems update qname_eq text_eq
inner = refl

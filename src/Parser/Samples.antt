-- ===== src/Parser/Samples.antt =====
-- A small table of types, and a new parser.
use xmlbeansxx.Prelude.{[], ◌∷◌, none, some, false, refl, text_eq, codes, negsuc}
use xmlbeansxx.QName.{qname, empty_qname}
use xmlbeansxx.NsMap
use xmlbeansxx.Heap.{Heap, ok, alloc, text_node}
use xmlbeansxx.Schema.{
  SchemaType, ws_preserve, mixed_content, lookup, create_document_by_name, create_sub_object,
}
use xmlbeansxx.XmlContext
use xmlbeansxx.XmlContext.{XmlContext, new_context}
use xmlbeansxx.Parser.{Object, Setting, State}
use xmlbeansxx.Parser.Building.Steps.{Ready, Total}

abbrev pub untyped : SchemaType
untyped = record {
  whitespace_rule = ws_preserve;
  attributes = [];
  elements = [];
  create_fn = some 0;
  name = empty_qname;
  document_element_name = empty_qname;
  is_array = false;
  fraction_digits = negsuc 0;
  content_type = mixed_content;
}

-- Every object has the type 0, XmlObject::type(), and one type is known by name.
abbrev pub setting : Setting
setting = record {
  types = λ st. untyped;
  type_system = record {
    type_creators = (qname (codes "u") (codes "t"), 7) ∷ [];
    document_type_creators = [];
  };
  xml_object = 0;
  string_type = 1;
  depth = 1;
  xml_string = λ t h. (ok (some h.next), (alloc (text_node 1 t) h).1);
  set_xml_object = λ o root h. (ok (record { contents = root.contents; origin = o.origin }), h);
}

abbrev pub empty_heap : Heap
empty_heap = record { cell = λ p. none; next = 0 }

abbrev pub new_parser : State
new_parser = record { xml_context = new_context; nodes_stack = []; heap = empty_heap }

abbrev pub document : Object
document = record { contents = none; origin = 0 }

pub new_context-Ready : Ready new_context []
unfolding new_context XmlContext.remember XmlContext.add_namespace NsMap.add_namespace NsMap.assign
    NsMap.lookup NsMap.is_set_prefix text_eq
new_context-Ready = record { default = refl; earlier = 0 ∷ []; position = refl }

pub setting-Total : Total setting (λ st x. 0)
unfolding create_sub_object create_document_by_name lookup
setting-Total = record { sub = λ st x h. refl }

-- ===== src/Serialize/Examples.antt =====
-- A document written as XML.
use xmlbeansxx.Prelude.{
  ℕ, zero, suc, ◌≡◌, refl, [], ◌∷◌, Option, none, some, true, false, codes, text_eq, text_lt,
  negsuc,
}
use xmlbeansxx.QName.{qname, qname_eq}
use xmlbeansxx.Dict.{dict_el}
use xmlbeansxx.NsMap
use xmlbeansxx.XmlContext
use xmlbeansxx.Heap.{Node, Heap, ok, plain_node, text_node}
use xmlbeansxx.Contents
use xmlbeansxx.Contents.{text_element_name}
use xmlbeansxx.Walker
use xmlbeansxx.Schema.{SchemaType, lookup, get_schema_type, ws_preserve, mixed_content}
use xmlbeansxx.Output.{XmlOptions, clear_default}
use xmlbeansxx.Output.Scoped.{Home}
use xmlbeansxx.Serialize.Namespaces.{serialize-Home}
use xmlbeansxx.Serialize.{
  Setting, entries, new_serializer, put_in, sort, add_declarations, write_attrs, serialize_attrs,
  write_type, write_elems, serialize_elems, serialize_plain, serialize, write_root,
  serialize_document,
}

abbrev plain_options : XmlOptions
plain_options = record {
  print_xml_declaration = false;
  serialize_types = false;
  serialize_inner_types = false;
  serialize_persistent = false;
}

-- The element `first` stands before `second` by its order.
abbrev blank : SchemaType
blank = record {
  whitespace_rule = ws_preserve;
  attributes = [];
  elements =
      (
        qname (codes "u") (codes "first"),
        record { order = 1; schema_type_name = qname [] []; singleton_default = [] },
      )
      ∷ (
        qname (codes "u") (codes "second"),
        record { order = 2; schema_type_name = qname [] []; singleton_default = [] },
      )
      ∷ [];
  create_fn = none;
  name = qname [] [];
  document_element_name = qname [] [];
  is_array = false;
  fraction_digits = negsuc 0;
  content_type = mixed_content;
}

abbrev root : Node
root = record (plain_node 0) {
  attrs = dict_el (qname [] (codes "id")) (some 3) ∷ [];
  elems =
      dict_el (qname (codes "u") (codes "second")) (some 2)
      ∷ dict_el (qname (codes "u") (codes "first")) (some 4)
      ∷ [];
}

abbrev cells : ℕ → Option Node
cells zero =
    some record (plain_node 0) { elems = dict_el (qname (codes "u") (codes "r")) (some 1) ∷ [] }
cells (suc zero) = some root
cells (suc (suc zero)) =
    some record (plain_node 0) { elems = dict_el text_element_name (some 3) ∷ [] }
cells (suc (suc (suc zero))) = some (text_node 0 (codes "7"))
cells (suc (suc (suc (suc p)))) = some (plain_node 0)

abbrev document : Heap
document = record { cell = cells; next = 5 }

abbrev setting : Setting
setting = record {
  types = λ _. blank;
  ts = record { type_creators = []; document_type_creators = [] };
  xml_object = 0;
  same_class = λ _ _. true;
  escape = λ _ t. t;
  depth = 3;
  options = plain_options;
  document = document;
}

serialize_document-run :
    serialize_document setting 3 0
    ≡ ok (codes "<a:r id=\"7\" xmlns:a=\"u\"><a:first/><a:second>7</a:second></a:r>\n")
unfolding serialize_document write_root serialize serialize_plain text_eq add_declarations
    clear_default entries put_in sort write_attrs serialize_attrs write_type write_elems
    serialize_elems lookup get_schema_type qname_eq text_lt XmlContext.cprint_qname
    NsMap.get_namespace_uri NsMap.lookup NsMap.is_set_prefix NsMap.add_namespace NsMap.assign
    NsMap.get_prefix XmlContext.remember XmlContext.new_context XmlContext.get_next_prefix
    XmlContext.add_namespace XmlContext.restore XmlContext.restore_loop XmlContext.restore_last
    XmlContext.declare_and_print XmlContext.print_prefix_name XmlContext.print_new_ns
    XmlContext.get_last_stored_links Walker.get_simple_content Contents.get_simple_content
    Contents.join_texts Contents.elem_array
serialize_document-run = refl

serialize-Home_example :
    Home
      (new_serializer setting).context
      (new_serializer setting).context.remembered
      (serialize setting 3 false (qname (codes "u") (codes "r")) 1 (new_serializer setting))
unfolding XmlContext.new_context XmlContext.remember XmlContext.add_namespace NsMap.add_namespace
    NsMap.is_set_prefix NsMap.lookup NsMap.assign
serialize-Home_example =
    serialize-Home setting 3 false (qname (codes "u") (codes "r")) 1 (new_serializer setting)
      (0 ∷ []) refl

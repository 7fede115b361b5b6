-- ===== src/Parser/Examples.antt =====
-- The parser on small documents.
use xmlbeansxx.Prelude.{
  ℕ, List, [], ◌∷◌, ◌++◌, none, some, false, ◌≡◌, refl, Text, text_eq, codes, arith, text_lt,
}
use xmlbeansxx.QName.{qname, empty_qname, qname_eq}
use xmlbeansxx.NsMap
use xmlbeansxx.Dict
use xmlbeansxx.Dict.{dict_el}
use xmlbeansxx.Heap.{
  ok, fault, alloc, plain_node, update, xml_exception, xml_parse_exception, beans_exception,
}
use xmlbeansxx.Contents
use xmlbeansxx.Walker
use xmlbeansxx.Schema.{
  lookup, create_by_name, create_document_by_name, create_sub_object, apply_content_type_rules,
}
use xmlbeansxx.XmlContext
use xmlbeansxx.XmlContext.{XmlContext, new_context}
use xmlbeansxx.Parser.{
  State, get_qname, namespace_uri, create_contents, get_schema_type, ns_split, is_persist_prefix,
  made_contents, tag_split,
}
use xmlbeansxx.Parser.Elements.{
  root_element, retype, set_attributes, set_links, fill, open_element, end_element, characters,
  free_object, remember_context, restore_context, pop, typed_by,
}
use xmlbeansxx.Parser.LibXml.{
  Attribute, Start, Event, start_element, add_namespaces, start_element_ns, callback, run, parse,
  parse_stream,
}
use xmlbeansxx.Parser.Reuse.{Left, parse-Left, parse_stream-parse, without_line_ends}
use xmlbeansxx.Parser.Balanced
use xmlbeansxx.Parser.Building.Steps.{open_at}
use xmlbeansxx.Parser.Typed.{retype_in, type_attribute, retype-type_attribute}
use xmlbeansxx.Parser.Samples.{setting, empty_heap, new_parser, document}

-- <a xmlns="u"><b/>x</a>, and the same cut off before its last tag.
abbrev start_a : Start
start_a = record {
  localname = codes "a";
  prefix = none;
  namespaces = (none, codes "u") ∷ [];
  attributes = [];
}

abbrev start_b : Start
start_b = record { localname = codes "b"; prefix = none; namespaces = []; attributes = [] }

abbrev markup : Balanced.Markup
markup =
    Balanced.element start_a
      (Balanced.element start_b Balanced.done (Balanced.chars (codes "x") Balanced.done))
      Balanced.done

abbrev sax : Text → List Event × ℕ
sax doc = (Balanced.events markup, 0)

abbrev parsed : State
parsed = (parse setting sax (codes "<a xmlns='u'><b/>x</a>") document new_parser).1

parse-Left_example : Left new_context (made_contents 0 1) parsed
unfolding parse run callback start_element_ns add_namespaces get_qname namespace_uri create_contents
    get_schema_type is_persist_prefix root_element retype set_attributes set_links fill open_element
    end_element characters free_object remember_context restore_context pop typed_by Balanced.events
    apply_content_type_rules create_sub_object create_document_by_name lookup update new_context
    XmlContext.remember XmlContext.add_namespace XmlContext.restore XmlContext.restore_loop
    XmlContext.restore_last XmlContext.get_last_stored_links NsMap.add_namespace NsMap.assign
    NsMap.lookup NsMap.is_set_prefix NsMap.get_namespace_uri text_eq text_lt Walker.get_elems
    Walker.set_attr_text Walker.append_elem Walker.count_elems Contents.get_elems
    Contents.named_elems Contents.free Contents.set_attr Contents.set_elem Contents.count_elems
    Dict.set_at Dict.set_scan Dict.finish_set Dict.add Dict.pad Dict.count Dict.del Dict.size
    qname_eq
parse-Left_example =
    parse-Left setting sax (codes "<a xmlns='u'><b/>x</a>") document (made_contents 0 1) markup
      new_parser parsed (0 ∷ [], refl) refl refl

parse_stream-parse_example :
    parse_stream setting sax (codes "<a" ++ 10 ∷ codes "b='c'/>") document new_parser
    ≡ parse setting sax (codes "<ab='c'/>") document new_parser
unfolding without_line_ends
parse_stream-parse_example =
    parse_stream-parse setting sax (codes "<a" ++ 10 ∷ codes "b='c'/>") document new_parser

-- The prefix i stands for the namespace of xsi:type.
abbrev in_scope : State
in_scope = record {
  xml_context = add_namespaces new_context (
      (some (codes "i"), codes "http://www.w3.org/2001/XMLSchema-instance")
      ∷ (some (codes "p"), codes "u")
      ∷ []);
  nodes_stack = [];
  heap = empty_heap;
}

abbrev with_id : Attribute
with_id = record { localname = codes "id"; prefix = none; value = codes "1" }

retype-type_attribute_example :
    retype_in setting
      (with_id ∷ type_attribute (codes "i") (codes "p") (codes "t") ∷ [])
      none
      in_scope
    ≡ (ok (some (record { contents = none; origin = 0 })), in_scope)
unfolding add_namespaces get_qname create_by_name lookup qname_eq new_context XmlContext.remember
    XmlContext.add_namespace NsMap.add_namespace NsMap.assign NsMap.lookup NsMap.is_set_prefix
    text_eq text_lt
retype-type_attribute_example =
    retype-type_attribute setting in_scope (with_id ∷ []) [] (codes "i") (codes "p") (codes "t")
      (codes "u") none refl (omega arith, tt) refl
      (record { name = qname [] (codes "id"); named = refl; no_type = refl; no_array = refl }, tt)
      tt

unknown_type :
    (retype_in setting (type_attribute (codes "i") (codes "p") (codes "none") ∷ []) none in_scope).0
    ≡ fault xml_exception
unfolding add_namespaces retype typed_by get_qname namespace_uri ns_split is_persist_prefix
    NsMap.get_namespace_uri NsMap.split_colon create_by_name lookup qname_eq new_context
    XmlContext.remember XmlContext.add_namespace NsMap.add_namespace NsMap.assign NsMap.lookup
    NsMap.is_set_prefix text_eq text_lt
unknown_type = refl

-- No parser declares the prefix xml, and an attribute with it is refused.
xml_prefix :
    (start_element_ns setting
      (record {
        localname = codes "a";
        prefix = none;
        namespaces = [];
        attributes =
            record { localname = codes "lang"; prefix = some (codes "xml"); value = codes "en" }
            ∷ [];
      })
      (record new_parser {
        nodes_stack = open_at 0 0 empty_qname ∷ open_at 0 0 empty_qname ∷ [];
        heap = (alloc (plain_node 0) empty_heap).1;
      })).0
    ≡ fault beans_exception
unfolding start_element_ns add_namespaces get_qname namespace_uri create_contents get_schema_type
    retype open_element apply_content_type_rules create_sub_object create_document_by_name lookup
    update new_context XmlContext.remember XmlContext.add_namespace NsMap.add_namespace NsMap.assign
    NsMap.lookup NsMap.is_set_prefix NsMap.get_namespace_uri text_eq text_lt
xml_prefix = refl

-- A document that breaks off in the element a leaves the namespaces of a in the parser.
cut_off :
    let s =
      (parse setting
        (λ doc. (start_element start_a ∷ [], 5))
        (codes "<a xmlns='u'>")
        document
        new_parser) in
    (s.0 ≡ fault xml_parse_exception)
    × ((get_qname none (codes "b") false s.1).0 ≡ ok (qname (codes "u") (codes "b")))
unfolding parse run callback start_element_ns add_namespaces get_qname namespace_uri create_contents
    get_schema_type is_persist_prefix root_element retype set_attributes set_links fill open_element
    free_object remember_context create_sub_object create_document_by_name lookup update new_context
    XmlContext.remember XmlContext.add_namespace XmlContext.get_last_stored_links
    NsMap.add_namespace NsMap.assign NsMap.lookup NsMap.is_set_prefix NsMap.get_namespace_uri
    text_eq text_lt Walker.get_elems Walker.set_attr_text Walker.append_elem Walker.count_elems
    Contents.get_elems Contents.named_elems Contents.free Contents.set_attr Contents.set_elem
    Contents.count_elems Dict.set_at Dict.set_scan Dict.finish_set Dict.add Dict.pad Dict.count
    Dict.del Dict.size qname_eq
cut_off = (refl, refl)

split_tag : tag_split (codes "p:t") ≡ (codes "p", codes "t")
unfolding tag_split NsMap.split_colon
split_tag = refl

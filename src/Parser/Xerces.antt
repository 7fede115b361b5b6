-- ===== src/Parser/Xerces.antt =====
-- The parser of src/xmlbeansxx/XercesParser.cpp: the handler `MySAX2Handler` and `parse`. Xerces-C
-- is the argument `sax`, which gives the calls of the handler that a document causes, in their
-- order; its texts are transcoded.
use xmlbeansxx.Prelude.{List, [], ◌∷◌, Option, none, some, true, if◌then◌else◌, Text}
use xmlbeansxx.QName.{QName, qname, empty_qname}
use xmlbeansxx.NsMap.{split_colon}
use xmlbeansxx.Heap.{ok, xml_parse_exception}
use xmlbeansxx.XmlContext.{add_namespace}
use xmlbeansxx.Parser.{
  Object, Setting, P, ◌>>=◌, ◌>>◌, return, fail, on_heap, create_contents, is_persist_prefix,
}
use xmlbeansxx.Parser.Elements.{open_element, end_element, characters, push, pop}
use xmlbeansxx.Parser.LibXml.{clear, document_of}

-- `Attributes`, and the arguments of `startElement`.
pub record Attribute : Type 0 where
  pub uri : Text
  pub localname : Text
  pub qname : Text
  pub value : Text

pub record Start : Type 0 where
  pub uri : Text
  pub localname : Text
  pub qname : Text
  pub attrs : List Attribute

-- `warning` only writes to the log.
pub data Event : Type 0 where
  start_prefix_mapping : Text → Text → Event
  start_tag : Start → Event
  end_tag : Event
  text : Text → Event
  warning : Event
  error : Event

abbrev pub before : Option (Text × Text) → Text
before none = []
before (some (p, rest)) = p

unfoldable pub get_prefix : Text → Text
get_prefix qname = before (split_colon qname)

-- The name of an element: a persistent prefix is dropped.
unfoldable pub element_name : Start → QName
element_name e = record {
  namespace_uri = e.uri;
  local_part = e.localname;
  prefix = if is_persist_prefix (get_prefix e.qname) then [] else get_prefix e.qname;
}

-- The name by which an attribute is looked at, and the name by which it is set.
abbrev pub test_name : Attribute → P QName
test_name a = return (qname a.uri a.localname)

abbrev pub attribute_name : Attribute → P QName
attribute_name a =
    return (record { namespace_uri = a.uri; local_part = a.localname; prefix = get_prefix a.qname })

abbrev pub attribute_value : Attribute → Text
attribute_value a = a.value

unfoldable pub start_element : Setting → Start → P (Unit {0})
start_element z e = open_element z test_name attribute_name attribute_value (element_name e) e.attrs

unfoldable pub prefix_mapping : Text → Text → P (Unit {0})
prefix_mapping p uri s =
    (ok tt, record s { xml_context = (add_namespace s.xml_context p uri true).0 })

unfoldable pub handler : Setting → Event → P (Unit {0})
handler z (start_prefix_mapping p uri) = prefix_mapping p uri
handler z (start_tag e) = start_element z e
handler z end_tag = end_element
handler z (text str) = characters z str
handler z warning = return tt
handler z error = fail xml_parse_exception

unfoldable pub run : Setting → List Event → P (Unit {0})
run z [] = return tt
run z (e ∷ events) = handler z e >> run z events

-- The assertion that the stack is then empty is checked in no release; the document is what stood
-- on the stack before the last pop.
unfoldable pub parse : Setting → (Text → List Event) → Text → Object → P Object
parse z sax doc document_root = do
  clear
  o ← on_heap (create_contents document_root)
  push (record { obj = o; name = empty_qname })
  run z (sax doc)
  o' ← document_of o
  pop
  return o'

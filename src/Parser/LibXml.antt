-- ===== src/Parser/LibXml.antt =====
-- The callbacks of src/xmlbeansxx/LibXMLParser.cpp and `parse`. libxml2 is the argument `sax`, which
-- gives the callbacks that a document causes, in their order, and the number of the error that
-- xmlSAXUserParseMemory or xmlSchemaValidateStream then returns.
use xmlbeansxx.Prelude.{
  ℕ, zero, suc, List, [], ◌∷◌, ◌++◌, Option, none, some, true, false, ◌==◌, if◌then◌else◌, Text,
}
use xmlbeansxx.QName.{QName, empty_qname}
use xmlbeansxx.Heap.{ok, xml_parse_exception}
use xmlbeansxx.XmlContext.{XmlContext, add_namespace}
use xmlbeansxx.Parser.{
  Object, StackEl, Setting, P, ◌>>=◌, ◌>>◌, return, fail, on_heap, get_qname, create_contents,
}
use xmlbeansxx.Parser.Elements.{open_element, end_element, characters, push}

-- A name as libxml2 gives it: the prefix is `none` for NULL. The URI beside it is never read.
pub record Attribute : Type 0 where
  pub localname : Text
  pub prefix : Option Text
  pub value : Text

pub record Start : Type 0 where
  pub localname : Text
  pub prefix : Option Text
  pub namespaces : List (Option Text × Text)
  pub attributes : List Attribute

pub data Event : Type 0 where
  start_element : Start → Event
  end_tag : Event
  text : Text → Event

abbrev pub or_empty : Option Text → Text
or_empty none = []
or_empty (some p) = p

unfoldable pub add_namespaces : XmlContext → List (Option Text × Text) → XmlContext
add_namespaces c [] = c
add_namespaces c ((p, ns) ∷ namespaces) =
    add_namespaces (add_namespace c (or_empty p) ns true).0 namespaces

abbrev pub store_namespaces : List (Option Text × Text) → P (Unit {0})
store_namespaces namespaces s =
    (ok tt, record s { xml_context = add_namespaces s.xml_context namespaces })

abbrev pub attribute_name : Attribute → P QName
attribute_name a = get_qname a.prefix a.localname true

abbrev pub attribute_value : Attribute → Text
attribute_value a = a.value

unfoldable pub start_element_ns : Setting → Start → P (Unit {0})
start_element_ns z e = do
  store_namespaces e.namespaces
  name ← get_qname e.prefix e.localname false
  open_element z attribute_name attribute_name attribute_value name e.attributes

unfoldable pub callback : Setting → Event → P (Unit {0})
callback z (start_element e) = start_element_ns z e
callback z end_tag = end_element
callback z (text str) = characters z str

-- The callbacks, one after another, until one throws.
unfoldable pub run : Setting → List Event → P (Unit {0})
run z [] = return tt
run z (e ∷ events) = callback z e >> run z events

-- `while (!nodesStack.empty()) nodesStack.pop()`
abbrev pub clear : P (Unit {0})
clear s = (ok tt, record s { nodes_stack = [] })

-- The object of the caller stands at the bottom of the stack.
abbrev pub bottom : Object → List StackEl → Object
bottom o [] = o
bottom o (e ∷ stack) = bottom e.obj stack

abbrev pub document_of : Object → P Object
document_of o s = (ok (bottom o s.nodes_stack), s)

abbrev pub check_error : ℕ → P (Unit {0})
check_error zero = return tt
check_error (suc n) = fail xml_parse_exception

-- `parse` of a text: the document as it is afterwards.
unfoldable pub parse : Setting → (Text → List Event × ℕ) → Text → Object → P Object
parse z sax doc document_root = do
  clear
  o ← on_heap (create_contents document_root)
  push (record { obj = o; name = empty_qname })
  run z (sax doc).0
  check_error (sax doc).1
  document_of o

-- `getline`, as often as it succeeds: the lines without their ends.
abbrev pub first_line : ℕ → List Text → List Text
first_line c [] = (c ∷ []) ∷ []
first_line c (line ∷ lines) = (c ∷ line) ∷ lines

unfoldable pub lines : Text → List Text
lines [] = []
lines (c ∷ s) = let rest = lines s in if c == 10 then [] ∷ rest else first_line c rest

abbrev pub append_lines : List Text → Text
append_lines [] = []
append_lines (line ∷ rest) = line ++ append_lines rest

-- `parse` of a stream, by the text that can be read from it.
unfoldable pub parse_stream : Setting → (Text → List Event × ℕ) → Text → Object → P Object
parse_stream z sax input = parse z sax (append_lines (lines input))

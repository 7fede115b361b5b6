-- ===== src/Documents.antt =====
-- `XmlObjectDocument` of src/xmlbeansxx/XmlObjectDocument.cpp, a document of any type, and the
-- settings of XmlOptions.h; the validation and the typed parsing that XmlOptions also holds are
-- read nowhere in the parts modelled here.
mod Examples
use xmlbeansxx.Prelude.{
  ℕ, List, [], ◌∷◌, Option, none, some, Bool, true, false, if◌then◌else◌, Text, codes, pos,
}
use xmlbeansxx.QName.{qname}
use xmlbeansxx.Dict.{ElemDict}
use xmlbeansxx.Heap.{Heap, class_cast_exception, Return, M, ◌>>=◌, ◌>>◌, return, fail}
use xmlbeansxx.Walker.{get_elems, set_elem}
use xmlbeansxx.Schema.{SchemaType, ws_unspecified, element_content, init}
use xmlbeansxx.Output.{XmlOptions}
use xmlbeansxx.Parser.{Object, Setting, State, P, create_contents, get_schema_type}
use xmlbeansxx.Parser
use xmlbeansxx.Parser.LibXml.{Event}
use xmlbeansxx.Parser.LibXml

-- `swapContents`
unfoldable pub set_xml_object : Object → Object → M Object
set_xml_object o p = return (record { contents = p.contents; origin = o.origin })

-- The one element of the object, as an XmlObject: `xml_object` is XmlObject::type().
abbrev pub inner_element : ℕ → Object → ElemDict ℕ → M (Object × Object)
inner_element xml_object o [] = fail class_cast_exception
inner_element xml_object o (it ∷ []) =
    return (o, record { contents = it.value; origin = xml_object })
inner_element xml_object o (it ∷ it2 ∷ rest) = fail class_cast_exception

-- The document and the element that `_setXmlObjectOrGetInnerElement` gives, by the answer of
-- `_cast_test`.
unfoldable pub set_xml_object_or_get_inner_element :
    ℕ → Bool → Object → Object → M (Object × Object)
set_xml_object_or_get_inner_element xml_object true o p = return (
  record { contents = p.contents; origin = o.origin },
  record { contents = none; origin = xml_object },
)
set_xml_object_or_get_inner_element xml_object false o p = do
  elements ← get_elems p.contents
  inner_element xml_object o elements

-- `if(e)` asks whether the element has contents.
abbrev pub set_inner : (ℕ → SchemaType) → Object → Option ℕ → M Object
set_inner types o none = return o
set_inner types o (some q) = do
  o' ← create_contents o
  st ← get_schema_type o'
  set_elem o'.contents (types st).document_element_name (some q) (pos 0)
  return o'

-- `_setXmlObject`
unfoldable pub cast_xml_object : (ℕ → SchemaType) → ℕ → Bool → Object → Object → M Object
cast_xml_object types xml_object cast_test o p = do
  r ← set_xml_object_or_get_inner_element xml_object cast_test o p
  set_inner types r.0 r.1.contents

-- `initSchemaType`, of the type of the objects that `newInstanceXmlObject` makes.
unfoldable pub init_schema_type : ℕ → SchemaType → SchemaType
init_schema_type own st =
    let st' = init st in
    record st' {
      create_fn = some own;
      whitespace_rule = ws_unspecified;
      content_type = element_content;
      name =
          qname (codes "http://xmlbeansxx.touk.pl/xmlbeansxx/innerType")
            (codes "xmlbeansxx__XmlObjectDocument");
    }

-- `Factory::newInstance` and `Factory::parse`; the parser is a new one.
unfoldable pub new_instance : ℕ → M Object
new_instance own = create_contents (record { contents = none; origin = own })

unfoldable pub parse : Setting → (Text → List Event × ℕ) → ℕ → Text → P Object
parse z sax own input s =
    Parser.and_then (Parser.on_heap (new_instance own) s) (λ o. LibXml.parse_stream z sax input o)

-- `XmlOptions`: the constructor, the setters and the three options by name.
unfoldable pub default_options : XmlOptions
default_options = record {
  print_xml_declaration = true;
  serialize_types = false;
  serialize_inner_types = false;
  serialize_persistent = false;
}

unfoldable pub set_serialize_types : Bool → XmlOptions → XmlOptions
set_serialize_types v o = record o { serialize_types = v }

unfoldable pub set_serialize_inner_types : Bool → XmlOptions → XmlOptions
set_serialize_inner_types v o =
    let o' = if v then set_serialize_types v o else o in record o' { serialize_inner_types = v }

unfoldable pub set_serialize_persistent : Bool → XmlOptions → XmlOptions
set_serialize_persistent v o =
    let o' = if v then set_serialize_inner_types true o else o in
    record o' { serialize_persistent = v }

unfoldable pub serialize_persistent : XmlOptions
serialize_persistent = set_serialize_persistent true default_options

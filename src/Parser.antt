-- ===== src/Parser.antt =====
-- The part that the parsers of src/xmlbeansxx share: `EmptyParser` (XmlParser.h and XmlParser.cpp)
-- with its namespace context and its stack of open elements, and what XmlObject (XmlTypesGen.xcpp)
-- says of contents. An XmlObject is its contents and the type of its class. The generated code and
-- the tables of types that a program is linked with are a Setting.
pub mod Elements
pub mod LibXml
pub mod Returns
pub mod Quiet
pub mod Opening
pub mod Ending
pub mod Balanced
pub mod Reuse
pub mod Building
pub mod Typed
mod Samples
mod Examples
pub mod Xerces
pub mod Grammars
use xmlbeansxx.Prelude.{
  ℕ, List, [], ◌∷◌, Option, none, some, Bool, true, false, if◌then◌else◌, take, length, Text, codes,
  text_eq,
}
use xmlbeansxx.QName.{QName, qname}
use xmlbeansxx.NsMap
use xmlbeansxx.NsMap.{Result, split_colon}
use xmlbeansxx.Heap.{
  Heap, Fault, bad_pointer, beans_exception, Return, ok, fault, M, load, alloc, plain_node,
}
use xmlbeansxx.Heap
use xmlbeansxx.Schema.{SchemaType, TypeSystem}
use xmlbeansxx.XmlContext.{XmlContext}

-- `origin` is `getOrginSchemaType()`, the type of the object's class.
pub record Object : Type 0 where
  pub contents : Option ℕ
  pub origin : ℕ

-- `str` and `process_contents` of a StackEl are never read: they are left out.
pub record StackEl : Type 0 where
  pub obj : Object
  pub name : QName

-- `xml_object` and `string_type` are XmlObject::type() and XmlString::type(), `depth` is the depth
-- that createSubObject may reach, `xml_string` the constructor of XmlString from a text, and
-- `set_xml_object` the virtual `setXmlObject`, which each generated class overrides.
pub record Setting : Type 0 where
  pub types : ℕ → SchemaType
  pub type_system : TypeSystem
  pub xml_object : ℕ
  pub string_type : ℕ
  pub depth : ℕ
  pub xml_string : Text → M (Option ℕ)
  pub set_xml_object : Object → Object → M Object

-- What a callback changes. The stack has its top first.
pub record State : Type 0 where
  pub xml_context : XmlContext
  pub nodes_stack : List StackEl
  pub heap : Heap

-- A callback returns or throws, and leaves a state in both cases.
abbrev pub P : Type 0 → Type 0
P A = State → Return A × State

abbrev pub and_then : {A B : Type 0} → Return A × State → (A → P B) → Return B × State
and_then (ok a, s) f = f a s
and_then (fault e, s) f = (fault e, s)

infixl 5 ◌>>=◌ ◌>>◌
abbrev pub ◌>>=◌ : {A B : Type 0} → P A → (A → P B) → P B
◌>>=◌ m f s = and_then (m s) f

abbrev pub ◌>>◌ : {A B : Type 0} → P A → P B → P B
m >> k = m >>= λ _. k

abbrev pub return : {A : Type 0} → A → P A
return a s = (ok a, s)

abbrev pub fail : {A : Type 0} → Fault → P A
fail e s = (fault e, s)

-- An operation on the contents.
abbrev pub with_heap : {A : Type 0} → State → Return A × Heap → Return A × State
with_heap s (r, h) = (r, record s { heap = h })

abbrev pub on_heap : {A : Type 0} → M A → P A
on_heap m s = with_heap s (m s.heap)

abbrev pub or_throw : {A : Type 0} → Result A → P A
or_throw (NsMap.ok a) = return a
or_throw NsMap.beans_exception = fail beans_exception

unfoldable pub namespace_uri : Text → P Text
namespace_uri p s = or_throw (NsMap.get_namespace_uri s.xml_context.prefix_map p) s

-- `nsSplit`
abbrev pub qname_of_split : Text → Bool → Option (Text × Text) → P QName
qname_of_split str true none = return (qname [] str)
qname_of_split str false none = do ns ← namespace_uri []; return (qname ns str)
qname_of_split str is_attr (some (p, rest)) = do ns ← namespace_uri p; return (qname ns rest)

unfoldable pub ns_split : Text → Bool → P QName
ns_split str is_attr = qname_of_split str is_attr (split_colon str)

-- `XmlBeans::persistentPrefix()`
abbrev pub persistent_prefix : Text
persistent_prefix = codes "xbsxxP_"

unfoldable pub is_persist_prefix : Text → Bool
is_persist_prefix p = text_eq (take (length persistent_prefix) p) persistent_prefix

-- `getQName`; a prefix that is NULL is `none`.
unfoldable pub get_qname : Option Text → Text → Bool → P QName
get_qname none localname true = return (qname [] localname)
get_qname none localname false = do ns ← namespace_uri []; return (qname ns localname)
get_qname (some p) localname is_attr = do
  ns ← namespace_uri p
  return (record {
    namespace_uri = ns;
    local_part = localname;
    prefix = if is_persist_prefix p then [] else p;
  })

-- `tagSplit`
abbrev pub or_unprefixed : Text → Option (Text × Text) → Text × Text
or_unprefixed str none = ([], str)
or_unprefixed str (some (p, rest)) = (p, rest)

unfoldable pub tag_split : Text → Text × Text
tag_split str = or_unprefixed str (split_colon str)

-- `XmlObject::createContents`
abbrev pub made_contents : ℕ → ℕ → Object
made_contents origin q = record { contents = some q; origin = origin }

abbrev pub contents_made : ℕ → Option ℕ → M Object
contents_made origin (some q) h = (ok (made_contents origin q), h)
contents_made origin none h = (ok (made_contents origin h.next), (alloc (plain_node origin) h).1)

unfoldable pub create_contents : Object → M Object
create_contents o = contents_made o.origin o.contents

-- `XmlObject::getSchemaType`
abbrev pub type_of_contents : ℕ → Option ℕ → M ℕ
type_of_contents origin none h = (ok origin, h)
type_of_contents origin (some p) h = Heap.and_then (load p h) (λ n h'. (ok n.st, h'))

unfoldable pub get_schema_type : Object → M ℕ
get_schema_type o = type_of_contents o.origin o.contents

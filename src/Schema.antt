-- ===== src/Schema.antt =====
-- `SchemaProperty`, `SchemaType` and `TypeSystem` of src/xmlbeansxx: what the generated types say of
-- their elements and attributes, and the table of the types by name. A SchemaType stands at an
-- address, and what makes an XmlObject, a generated function, is known by the type of its object.
-- A `std::map` is a list without an order: the library only looks names up in it here.
use xmlbeansxx.Prelude.{
  ℕ, zero, suc, ◌+◌, List, [], ◌∷◌, Option, none, some, Bool, true, false, if◌then◌else◌, Text, ℤ,
  negsuc,
}
use xmlbeansxx.QName.{QName, qname, qname_eq}
use xmlbeansxx.TextUtils.{collapse}
use xmlbeansxx.Heap.{M, ◌>>=◌, return, fail, bad_pointer, too_deep}

abbrev pub NameMap : Type 0 → Type 0
NameMap A = List (QName × A)

-- `find`, and `operator[]` with an assignment.
unfoldable pub lookup : {A : Type 0} → NameMap A → QName → Option A
lookup [] name = none
lookup ((key, v) ∷ m) name =
    let later = lookup m name in if qname_eq key name then some v else later

unfoldable pub assign : {A : Type 0} → NameMap A → QName → A → NameMap A
assign [] name v = (name, v) ∷ []
assign ((key, old) ∷ m) name v =
    let later = assign m name v in if qname_eq key name then (key, v) ∷ m else (key, old) ∷ later

pub record SchemaProperty : Type 0 where
  pub order : ℕ
  pub schema_type_name : QName
  pub singleton_default : Text

pub data WsType : Type 0 where
  ws_preserve : WsType
  ws_replace : WsType
  ws_unspecified : WsType
  ws_collapse : WsType

pub data ContentType : Type 0 where
  empty_content : ContentType
  simple_content : ContentType
  element_content : ContentType
  mixed_content : ContentType
  not_complex_type : ContentType

-- `create_fn` is the type of the object that the function makes, or none for NULL.
pub record SchemaType : Type 0 where
  pub whitespace_rule : WsType
  pub attributes : NameMap SchemaProperty
  pub elements : NameMap SchemaProperty
  pub create_fn : Option ℕ
  pub name : QName
  pub document_element_name : QName
  pub is_array : Bool
  pub fraction_digits : ℤ
  pub content_type : ContentType

-- `init`; what it leaves uninitialised is an argument.
unfoldable pub init : SchemaType → SchemaType
init st = record st { fraction_digits = negsuc 0; content_type = mixed_content; is_array = false }

-- A row of a generated table: two names, each of two texts, and the default.
abbrev pub Row : Type 0
Row = Text × Text × Text × Text × Text

abbrev pub row_property : ℕ → Row → SchemaProperty
row_property i row = record {
  order = i + 1;
  schema_type_name = qname row.2 row.3;
  singleton_default = row.4;
}

-- The loops of `propertyElem` and `propertyAttr` from the row `i` on.
unfoldable pub put_rows : ℕ → List Row → NameMap SchemaProperty → NameMap SchemaProperty
put_rows i [] m = m
put_rows i (row ∷ table) m =
    put_rows (i + 1) table (assign m (qname row.0 row.1) (row_property i row))

unfoldable pub property_elem : SchemaType → List Row → SchemaType
property_elem st table = record st { elements = put_rows 0 table st.elements }

unfoldable pub property_attr : SchemaType → List Row → SchemaType
property_attr st table = record st { attributes = put_rows 0 table st.attributes }

unfoldable pub find_attribute : SchemaType → QName → Option SchemaProperty
find_attribute st name = lookup st.attributes name

unfoldable pub find_element : SchemaType → QName → Option SchemaProperty
find_element st name = lookup st.elements name

-- `TextUtils::applyContentTypeRules`
abbrev pub has_text : ContentType → Bool
has_text simple_content = true
has_text mixed_content = true
has_text not_complex_type = true
has_text t = false

abbrev pub is_collapse : WsType → Bool
is_collapse ws_collapse = true
is_collapse t = false

unfoldable pub apply_content_type_rules : Text → SchemaType → Text
apply_content_type_rules value st =
    if has_text st.content_type
    then (if is_collapse st.whitespace_rule then collapse value else value)
    else []

pub record TypeSystem : Type 0 where
  pub type_creators : NameMap ℕ
  pub document_type_creators : NameMap ℕ

unfoldable pub add_type : (ℕ → SchemaType) → TypeSystem → ℕ → TypeSystem
add_type types ts st = record ts { type_creators = assign ts.type_creators (types st).name st }

unfoldable pub add_document_type : (ℕ → SchemaType) → TypeSystem → ℕ → TypeSystem
add_document_type types ts st =
    let ts' = add_type types ts st in
    record ts' {
      document_type_creators =
          assign ts'.document_type_creators (types st).document_element_name st;
    }

-- `xml_object` is `XmlObject::type()`.
abbrev pub or_type : ℕ → Option ℕ → ℕ
or_type xml_object none = xml_object
or_type xml_object (some st) = st

unfoldable pub get_schema_type : ℕ → TypeSystem → QName → ℕ
get_schema_type xml_object ts name = or_type xml_object (lookup ts.type_creators name)

-- The object that the creator of a type makes, by its type, or a null pointer.
abbrev pub created : (ℕ → SchemaType) → Option ℕ → Option ℕ
created types none = none
created types (some st) = (types st).create_fn

unfoldable pub create_by_name : (ℕ → SchemaType) → TypeSystem → QName → Option ℕ
create_by_name types ts name = created types (lookup ts.type_creators name)

unfoldable pub create_document_by_name : (ℕ → SchemaType) → TypeSystem → QName → Option ℕ
create_document_by_name types ts name = created types (lookup ts.document_type_creators name)

-- `createSubObject`, which goes on at the type of a document: the depth that it may reach.
abbrev pub sub_object_of_root :
    (ℕ → SchemaType) → ℕ → (ℕ → QName → M (Option ℕ)) → Option ℕ → M (Option ℕ)
sub_object_of_root types xml_object later none = return (some xml_object)
sub_object_of_root types xml_object later (some root) =
    later root (types root).document_element_name

abbrev pub sub_object_of :
    (ℕ → SchemaType)
    → TypeSystem
    → ℕ
    → (ℕ → QName → M (Option ℕ))
    → QName
    → Option SchemaProperty
    → M (Option ℕ)
sub_object_of types ts xml_object later name (some p) =
    return (create_by_name types ts p.schema_type_name)
sub_object_of types ts xml_object later name none =
    sub_object_of_root types xml_object later (create_document_by_name types ts name)

unfoldable pub create_sub_object : (ℕ → SchemaType) → TypeSystem → ℕ → ℕ → ℕ → QName → M (Option ℕ)
create_sub_object types ts xml_object zero st name = fail too_deep
create_sub_object types ts xml_object (suc depth) st name =
    sub_object_of types ts xml_object (create_sub_object types ts xml_object depth) name
      (lookup (types st).elements name)

-- `o->createContents()` of what createSubObject gives; a null pointer is followed.
abbrev pub with_contents : (ℕ → M ℕ) → Option ℕ → M ℕ
with_contents create_contents none = fail bad_pointer
with_contents create_contents (some st) = create_contents st

unfoldable pub create_sub_contents :
    (ℕ → SchemaType) → TypeSystem → ℕ → ℕ → (ℕ → M ℕ) → ℕ → QName → M ℕ
create_sub_contents types ts xml_object depth create_contents st name = do
  o ← create_sub_object types ts xml_object depth st name
  with_contents create_contents o

-- ===== src/Arrays.antt =====
-- `XmlArray` of src/xmlbeansxx/XmlArray.h and XmlArray.cpp: an XmlObject whose elements of one name
-- are the items of an array. An array, like an item, is the pointer to its contents; the generated
-- class of the items wraps the pointer and is an argument where it is more than that.
pub mod Shared
pub mod Items
mod Examples
use xmlbeansxx.Prelude.{
  ℕ, List, [], ◌∷◌, Option, none, some, Bool, true, false, if◌then◌else◌, Text, codes, ℤ, negsuc,
}
use xmlbeansxx.QName.{QName, qname, empty_qname}
use xmlbeansxx.Heap.{class_cast_exception, M, ◌>>=◌, ◌>>◌, return, fail, load, alloc, plain_node}
use xmlbeansxx.Walker.{
  get_elem, cget_elem, set_elem, append_elem, remove_elems, count_elems, set_elem_array,
  get_elem_array,
}
use xmlbeansxx.Schema.{SchemaType, SchemaProperty, assign, ws_collapse, init}
use xmlbeansxx.Arrays.Shared.{vector_conv}

-- `Names::elementName`
abbrev pub element_name : QName
element_name = qname (codes "http://xmlbeans.apache.org/definitions") (codes "e")

-- `xml_object_name` is `XmlObject::type()->name`, `own` the type of the objects that the function
-- `newInstanceXmlObject` makes; what the constructor leaves uninitialised is an argument.
unfoldable pub init_schema_type : QName → ℕ → SchemaType → SchemaType
init_schema_type xml_object_name own st =
    let st' = init st in
    record st' {
      create_fn = some own;
      whitespace_rule = ws_collapse;
      name = qname (codes "http://xmlbeansxx.touk.pl/xmlbeansxx/innerType") (codes "XmlArray");
      is_array = true;
      elements =
          assign st'.elements element_name
            (record { order = 1; schema_type_name = xml_object_name; singleton_default = [] });
    }

-- `Factory::newInstance`, of the type of the array.
unfoldable pub new_instance : ℕ → M ℕ
new_instance own = alloc (plain_node own)

-- The constructor from an XmlObject: an object of no array type is refused, and one without
-- contents gives an array without.
abbrev pub of_array : Bool → Option ℕ → M (Option ℕ)
of_array is_array p = if is_array then return p else fail class_cast_exception

unfoldable pub of_xml_object : (ℕ → SchemaType) → ℕ → Option ℕ → M (Option ℕ)
of_xml_object types origin none = of_array (types origin).is_array none
of_xml_object types origin (some p) = do n ← load p; of_array (types n.st).is_array (some p)

-- The constructor from an array of another class of items, by the answer of `_cast_test`.
unfoldable pub of_xml_array : Bool → Option ℕ → M (Option ℕ)
of_xml_array cast_test p = if cast_test then return p else fail class_cast_exception

unfoldable pub get_array_at : Option ℕ → ℤ → M (Option ℕ)
get_array_at obj i = get_elem obj element_name i

unfoldable pub cget_array_at : (ℕ → QName → M ℕ) → Option ℕ → ℤ → M ℕ
cget_array_at create obj i = cget_elem create obj element_name i

unfoldable pub set_array_at : Option ℕ → ℤ → Option ℕ → M (Unit {0})
set_array_at obj i value = set_elem obj element_name value i

unfoldable pub append : Option ℕ → Option ℕ → M (Unit {0})
append obj value = append_elem obj element_name value

unfoldable pub unset : Option ℕ → M (Unit {0})
unset obj = remove_elems obj element_name

unfoldable pub size : Option ℕ → M ℕ
size obj = count_elems obj element_name

unfoldable pub set_array : Option ℕ → List (Option ℕ) → M (Unit {0})
set_array obj vec = set_elem_array obj element_name vec

-- `item` is the constructor of the class of the items.
unfoldable pub get_array : (Option ℕ → Option ℕ) → Option ℕ → M (List (Option ℕ))
get_array item obj = do a ← get_elem_array obj element_name; return (vector_conv none item a)

-- The loop of `xmlarray_java_cast`; `java_cast` makes an item of the other class, or throws.
unfoldable pub append_casts : (Option ℕ → M (Option ℕ)) → Option ℕ → List (Option ℕ) → M (Unit {0})
append_casts java_cast obj [] = return tt
append_casts java_cast obj (a ∷ rest) = do
  b ← java_cast a
  append obj b
  append_casts java_cast obj rest

unfoldable pub xmlarray_java_cast :
    (Option ℕ → Option ℕ) → (Option ℕ → M (Option ℕ)) → ℕ → Option ℕ → M (Option ℕ)
xmlarray_java_cast item java_cast own from = do
  ret ← new_instance own
  a ← get_array item from
  append_casts java_cast (some ret) a
  return (some ret)

-- ===== src/Serialize.antt =====
-- src/xmlbeansxx/Serialize.cpp: a node and what is below it written as XML, with the namespaces
-- of an NSMapSerializer. The document is only read.
pub mod Namespaces
mod Examples
use xmlbeansxx.Prelude.{
  ℕ, zero, suc, ◌+◌, List, [], ◌∷◌, ◌++◌, Option, none, some, Bool, true, false, not, ◌&&◌, ◌||◌,
  ltb, if◌then◌else◌, length, Text, codes, text_eq,
}
use xmlbeansxx.QName.{QName, qname}
use xmlbeansxx.Dict.{ElemDict, DictEl}
use xmlbeansxx.NsMap.{get_namespace_uri}
use xmlbeansxx.NsMap
use xmlbeansxx.XmlContext.{
  XmlContext, NsMapSerializer, Printed, add_namespace, remember, restore, new_context, cprint_qname,
  print_new_ns,
}
use xmlbeansxx.Output.{
  XmlOptions, with_inner_types, Written, Writer, behind, go_on, ◌then_write◌, emit, printed,
  print_name, declare, remember_ns, in_context, restore_ns, shown, print_declared, xsi_type,
  inner_type_ns, clear_if_set, clear_default,
}
use xmlbeansxx.Heap.{
  Kind, plain, text, Node, Heap, Fault, bad_pointer, beans_exception, illegal_state, too_deep,
  Return, ok, fault,
}
use xmlbeansxx.Cursor.{xmlns}
use xmlbeansxx.Walker.{get_simple_content}
use xmlbeansxx.Schema.{SchemaType, SchemaProperty, TypeSystem, lookup, get_schema_type}

-- An element to be written: its order, its name, its contents and the type it is expected to have.
pub record Entry : Type 0 where
  pub order : ℕ
  pub el : DictEl ℕ
  pub expected : ℕ

-- The order and the expected type from the property, or the greatest order so far.
abbrev pub entry_of : TypeSystem → ℕ → ℕ → DictEl ℕ → Option SchemaProperty → Entry
entry_of ts xml_object max_order it (some p) = record {
  order = p.order;
  el = it;
  expected = get_schema_type xml_object ts p.schema_type_name;
}
entry_of ts xml_object max_order it none = record {
  order = max_order;
  el = it;
  expected = xml_object;
}

abbrev pub max : ℕ → ℕ → ℕ
max a b = if ltb b a then a else b

-- `calculate the element orders`
unfoldable pub entries : SchemaType → TypeSystem → ℕ → ℕ → ElemDict ℕ → List Entry
entries st ts xml_object max_order [] = []
entries st ts xml_object max_order (it ∷ rest) =
    let e = entry_of ts xml_object max_order it (lookup st.elements it.name) in
    e ∷ entries st ts xml_object (max max_order e.order) rest

-- `std::sort` by the order, and by the place in the dictionary where the orders are equal.
unfoldable pub put_in : Entry → List Entry → List Entry
put_in e [] = e ∷ []
put_in e (f ∷ l) = let later = put_in e l in if ltb f.order e.order then f ∷ later else e ∷ f ∷ l

unfoldable pub sort : List Entry → List Entry
sort [] = []
sort (e ∷ l) = put_in e (sort l)

-- What a document is written with: its types, `XmlObject::type()`, the comparison of the class type
-- infos of two types, exchangeEntities for an attribute or not, what the recursion through the texts
-- may reach, the options, and the document.
pub record Setting : Type 0 where
  pub types : ℕ → SchemaType
  pub ts : TypeSystem
  pub xml_object : ℕ
  pub same_class : ℕ → ℕ → Bool
  pub escape : Bool → Text → Text
  pub depth : ℕ
  pub options : XmlOptions
  pub document : Heap

module _ (g : Setting) where
  abbrev pub shall_print_xsi_type : ℕ → ℕ → Bool
  shall_print_xsi_type xsd_defined st =
      not (g.same_class st g.xml_object) && not (g.same_class st xsd_defined)

  abbrev pub with_text : (Text → Writer) → Return Text → Writer
  with_text w (fault e) s = fault e
  with_text w (ok t) s = w t s

  abbrev pub with_simple_content : Option ℕ → (Text → Writer) → Writer
  with_simple_content value w = with_text w (get_simple_content g.depth value g.document).0

  -- The namespace attributes are put into the map.
  unfoldable pub add_declarations : Bool → ElemDict ℕ → Writer
  add_declarations clear [] = emit []
  add_declarations clear (it ∷ rest) =
      let later = add_declarations clear rest in
      if text_eq it.name.namespace_uri xmlns && (not clear || not (text_eq it.name.local_part []))
      then with_simple_content it.value (declare it.name.local_part) then_write later
      else later

  unfoldable pub write_attrs : ElemDict ℕ → Writer
  write_attrs [] = emit []
  write_attrs (it ∷ rest) =
      let later = write_attrs rest in
      if text_eq it.name.namespace_uri xmlns
      then later
      else emit (codes " ")
        then_write print_name it.name (codes "=\"")
        then_write with_simple_content it.value (λ t. emit (g.escape true t ++ codes "\""))
        then_write later

  unfoldable pub serialize_attrs : ElemDict ℕ → Writer
  serialize_attrs attrs = write_attrs attrs then_write print_declared

  -- The `xsi:type` attribute.
  unfoldable pub write_type : Bool → ℕ → Writer
  write_type print_xsi_type st =
      if print_xsi_type
        && g.options.serialize_types
        && (with_inner_types g.options
            || not (text_eq (g.types st).name.namespace_uri inner_type_ns))
      then emit (codes " ")
        then_write print_name xsi_type (codes "=\"")
        then_write print_name (g.types st).name (codes "\"")
      else emit []

  -- The elements in their order, each written by `write`.
  abbrev pub write_entry : (Bool → QName → ℕ → Writer) → Entry → ℕ → Option Node → Writer
  write_entry write e q none s = fault bad_pointer
  write_entry write e q (some m) s = write (shall_print_xsi_type e.expected m.st) e.el.name q s

  abbrev pub write_value : (Bool → QName → ℕ → Writer) → Entry → Option ℕ → Writer
  write_value write e none = emit []
  write_value write e (some q) = write_entry write e q (g.document.cell q)

  unfoldable pub write_elems : (Bool → QName → ℕ → Writer) → List Entry → Writer
  write_elems write [] = emit []
  write_elems write (e ∷ l) = write_value write e e.el.value then_write write_elems write l

  unfoldable pub serialize_elems : (Bool → QName → ℕ → Writer) → Node → Writer
  serialize_elems write n =
      remember_ns
      then_write write_elems write (sort (entries (g.types n.st) g.ts g.xml_object 0 n.elems))
      then_write restore_ns

  -- The end of an element: `name` is its printed name.
  abbrev pub close_element : (Bool → QName → ℕ → Writer) → Node → Text → Writer
  close_element write n name =
      if ltb 0 (length n.elems)
      then emit (codes ">")
        then_write serialize_elems write n
        then_write emit (codes "</" ++ name ++ codes ">")
      else emit (codes "/>")

  abbrev pub open_element :
      (Bool → QName → ℕ → Writer) → Bool → Node → Option Printed → Return Written
  open_element write print_xsi_type n none = fault too_deep
  open_element write print_xsi_type n (some (s, name)) =
      (emit (codes "<" ++ name)
          then_write write_type print_xsi_type n.st
          then_write serialize_attrs n.attrs
          then_write close_element write n name
          then_write restore_ns)
        s

  -- `serialize` of the base class.
  unfoldable pub serialize_plain : (Bool → QName → ℕ → Writer) → Bool → QName → Node → Writer
  serialize_plain write print_xsi_type elem_name n =
      let clear = text_eq elem_name.namespace_uri [] in
      remember_ns
      then_write (if clear then clear_default else emit [])
      then_write add_declarations clear n.attrs
      then_write λ s.
          open_element write print_xsi_type n
            (cprint_qname (suc (length s.context.prefix_map)) s elem_name)

  -- `StringContents::serialize` writes its text, without a tag.
  abbrev pub by_class : Kind → Writer → Writer
  by_class (text value) w = emit (g.escape false value)
  by_class plain w = w

  abbrev pub serialize_node : (Bool → QName → ℕ → Writer) → Bool → QName → Option Node → Writer
  serialize_node write print_xsi_type elem_name none s = fault bad_pointer
  serialize_node write print_xsi_type elem_name (some n) s =
      by_class n.kind (serialize_plain write print_xsi_type elem_name n) s

  -- `serialize`, with the depth of the elements that it may reach.
  unfoldable pub serialize : ℕ → Bool → QName → ℕ → Writer
  serialize zero print_xsi_type elem_name p s = fault too_deep
  serialize (suc levels) print_xsi_type elem_name p s =
      serialize_node (serialize levels) print_xsi_type elem_name (g.document.cell p) s

  abbrev pub new_serializer : NsMapSerializer
  new_serializer = record {
    context = new_context;
    prefix_prefix = if g.options.serialize_persistent then codes "xbsxxP_" else [];
    current = 0;
  }

  -- No type is printed where the document's type has no such element.
  abbrev pub root_shows_type : ℕ → Option SchemaProperty → Bool
  root_shows_type st none = false
  root_shows_type st (some p) =
      shall_print_xsi_type (get_schema_type g.xml_object g.ts p.schema_type_name) st

  abbrev pub text_of : Text → Return Written → Return Text
  text_of t (fault e) = fault e
  text_of t (ok (s, u)) = ok (t ++ u)

  unfoldable pub write_root : ℕ → SchemaType → QName → Option ℕ → Option Node → Text → Return Text
  write_root levels st name none m declaration = ok declaration
  write_root levels st name (some q) none declaration = fault bad_pointer
  write_root levels st name (some q) (some m) declaration = text_of declaration (
      (serialize levels (root_shows_type m.st (lookup st.elements name)) name q
          then_write emit (codes "\n"))
        new_serializer)

  abbrev pub declaration_text : Text
  declaration_text =
      if g.options.print_xml_declaration
      then codes "<?xml version=\"1.0\" encoding=\"UTF-8\"?>\n"
      else []

  abbrev pub cell_of : Option ℕ → Option Node
  cell_of none = none
  cell_of (some q) = g.document.cell q

  abbrev pub first_root : ℕ → SchemaType → ElemDict ℕ → Return Text
  first_root levels st [] = ok declaration_text
  first_root levels st (it ∷ rest) =
      write_root levels st it.name it.value (cell_of it.value) declaration_text

  -- `serializeDocument`
  unfoldable pub serialize_document : ℕ → ℕ → Return Text
  serialize_document levels p = elim (g.document.cell p) [
    | none ↦ fault bad_pointer
    | some n ↦ elim n.kind [
      | text value ↦ fault illegal_state
      | plain ↦ first_root levels (g.types n.st) n.elems
    ]
  ]

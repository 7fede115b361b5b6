-- ===== src/Parser/Elements.antt =====
-- What `startElementNs` of src/xmlbeansxx/LibXMLParser.cpp and `MySAX2Handler::startElement` of
-- XercesParser.cpp do alike with the element that opens; they differ in the names, which are
-- arguments here: `test_name` names an attribute where xsi:type is looked for, `attr_name` where it
-- is set.
use xmlbeansxx.Prelude.{
  ℕ, List, [], ◌∷◌, Option, none, some, false, ◌||◌, if◌then◌else◌, Text, codes,
}
use xmlbeansxx.QName.{QName, qname, qname_eq}
use xmlbeansxx.Dict.{ElemDict}
use xmlbeansxx.Heap.{
  Node, bad_pointer, xml_exception, ok, fault, M, deref, load, alloc, plain_node, text_node,
}
use xmlbeansxx.Heap
use xmlbeansxx.Contents.{free, text_element_name}
use xmlbeansxx.Walker.{get_elems, set_attr_text, append_elem}
use xmlbeansxx.Schema.{
  create_by_name, create_document_by_name, create_sub_object, apply_content_type_rules,
}
use xmlbeansxx.Output.{xsi_type}
use xmlbeansxx.XmlContext.{XmlContext, get_last_stored_links, remember, restore}
use xmlbeansxx.Parser.{
  Object, StackEl, Setting, P, ◌>>=◌, ◌>>◌, return, fail, on_heap, or_throw, ns_split,
  is_persist_prefix, made_contents, create_contents, get_schema_type,
}

-- `XmlBeans::xsi_array()` and `XmlBeans::xmlns()`
abbrev pub xsi_array : QName
xsi_array = qname (codes "http://www.w3.org/2001/XMLSchema-instance") (codes "array")

abbrev pub xmlns : Text
xmlns = codes "http://www.w3.org/2000/xmlns/"

-- `top()` of an empty stack is undefined.
abbrev pub top_of : List StackEl → P Object
top_of [] = fail bad_pointer
top_of (e ∷ stack) = return e.obj

abbrev pub top : P Object
top s = top_of s.nodes_stack s

-- The object at the top is changed in place.
abbrev pub with_top : Object → List StackEl → List StackEl
with_top o [] = []
with_top o (e ∷ stack) = record e { obj = o } ∷ stack

abbrev pub set_top : Object → P (Unit {0})
set_top o s = (ok tt, record s { nodes_stack = with_top o s.nodes_stack })

abbrev pub push : StackEl → P (Unit {0})
push e s = (ok tt, record s { nodes_stack = e ∷ s.nodes_stack })

unfoldable pub remember_context : P (Unit {0})
remember_context s = (ok tt, record s { xml_context = remember s.xml_context })

-- `XmlObject::free`
unfoldable pub free_object : Object → M Object
free_object o h = Heap.and_then (deref o.contents h) λ p h'.
    Heap.and_then (free p h') λ _ h''. (ok (record { contents = none; origin = o.origin }), h'')

abbrev pub new_object : Option ℕ → Option Object
new_object none = none
new_object (some t) = some (record { contents = none; origin = t })

abbrev pub not_null : Option Object → P Object
not_null none = fail xml_exception
not_null (some n) = return n

abbrev pub last_links : P (List (Text × Text))
last_links s = or_throw (get_last_stored_links s.xml_context) s

module _ (z : Setting) where
  -- The one element that the document holds gives the type of the root, and its name.
  abbrev pub predefined_by : QName → ℕ → P (Option Object × QName)
  predefined_by name st = do
    q ← on_heap (alloc (plain_node st))
    return (some (made_contents z.xml_object q), name)

  abbrev pub predefined : QName → ElemDict ℕ → P (Option Object × QName)
  predefined name [] = return (none, name)
  predefined name (it ∷ []) = do
    p ← on_heap (deref it.value)
    n ← on_heap (load p)
    predefined_by it.name n.st
  predefined name (it ∷ it2 ∷ rest) = return (none, name)

  -- The contents of the document of that name, where a type of document has it.
  abbrev pub set_document_root : Object → Option ℕ → P (Unit {0})
  set_document_root o none = return tt
  set_document_root o (some t) = do
    root ← on_heap (create_contents (record { contents = none; origin = t }))
    o' ← on_heap (z.set_xml_object o root)
    set_top o'

  unfoldable pub root_element : QName → P (Option Object × QName)
  root_element name = do
    o ← top
    e ← on_heap (get_elems o.contents)
    r ← predefined name e
    o' ← on_heap (free_object o)
    set_top o'
    set_document_root o' (create_document_by_name z.types z.type_system r.1)
    return r

  -- Only the root is read when the stack holds one object.
  abbrev pub root_or_inner : QName → List StackEl → P (Option Object × QName)
  root_or_inner name [] = fail xml_exception
  root_or_inner name (e ∷ []) = root_element name
  root_or_inner name (e ∷ e2 ∷ stack) = return (none, name)

  abbrev pub begin : QName → P (Option Object × QName)
  begin name s = root_or_inner name s.nodes_stack s

  -- `top->getSchemaType()->createSubObject(name)` where there is no object yet.
  abbrev pub or_sub_object : Object → QName → Option Object → P (Option Object)
  or_sub_object o name (some n) = return (some n)
  or_sub_object o name none = do
    st ← on_heap (get_schema_type o)
    t ← on_heap (create_sub_object z.types z.type_system z.xml_object z.depth st name)
    return (new_object t)

  -- One attribute is looked at for xsi:type and xsi:array.
  unfoldable pub typed_by : QName → Text → Option Object → P (Option Object)
  typed_by name value n =
      if qname_eq name xsi_type
      then (do
        t ← ns_split value false
        o ← not_null (new_object (create_by_name z.types z.type_system t))
        return (some o))
      else if qname_eq name xsi_array
      then (do ns_split value false; o ← not_null n; return (some o))
      else return n

  abbrev pub set_one : Object → QName → Text → P (Unit {0})
  set_one n name v =
      if qname_eq name xsi_type || qname_eq name xsi_array
      then return tt
      else on_heap (set_attr_text z.xml_string n.contents name v)

  -- The namespaces that were declared since the last `remember`, as attributes.
  abbrev pub set_link : Object → Text → Text → P (Unit {0})
  set_link n p ns =
      if is_persist_prefix p
      then return tt
      else on_heap (set_attr_text z.xml_string n.contents (qname xmlns p) ns)

  unfoldable pub set_links : Object → List (Text × Text) → P (Unit {0})
  set_links n [] = return tt
  set_links n ((p, ns) ∷ links) = set_link n p ns >> set_links n links

  module _ {A : Type 0} (test_name attr_name : A → P QName) (value : A → Text) where
    unfoldable pub retype : List A → Option Object → P (Option Object)
    retype [] n = return n
    retype (a ∷ attrs) n = do name ← test_name a; n' ← typed_by name (value a) n; retype attrs n'

    unfoldable pub set_attributes : Object → List A → P (Unit {0})
    set_attributes n [] = return tt
    set_attributes n (a ∷ attrs) = do
      name ← attr_name a
      set_one n name (value a)
      set_attributes n attrs

    -- The new object is filled, appended to the top and pushed.
    unfoldable pub fill : Object → List A → P (Unit {0})
    fill n attrs = do
      set_attributes n attrs
      links ← last_links
      set_links n links
      remember_context

    abbrev pub append_new : Object → QName → List A → Object → P (Unit {0})
    append_new o name attrs n = do
      n' ← on_heap (create_contents n)
      fill n' attrs
      on_heap (append_elem o.contents name n'.contents)
      push (record { obj = n'; name = name })

    abbrev pub open_under : Object → QName → List A → Option Object → P (Unit {0})
    open_under o name attrs n = do
      sub ← or_sub_object o name n
      typed ← retype attrs sub
      n' ← not_null typed
      append_new o name attrs n'

    unfoldable pub open_element : QName → List A → P (Unit {0})
    open_element name attrs = do
      r ← begin name
      o ← top
      o' ← on_heap (create_contents o)
      set_top o'
      open_under o' r.1 attrs r.0

-- `restore` of a context with too few positions is undefined.
abbrev pub restored : Option XmlContext → P (Unit {0})
restored none s = (fault bad_pointer, s)
restored (some c) s = (ok tt, record s { xml_context = c })

unfoldable pub restore_context : P (Unit {0})
restore_context s = restored (restore s.xml_context) s

abbrev pub popped : List StackEl → P (Unit {0})
popped [] s = (fault bad_pointer, s)
popped (e ∷ stack) s = (ok tt, record s { nodes_stack = stack })

unfoldable pub pop : P (Unit {0})
pop s = popped s.nodes_stack s

-- `endElementNs`
unfoldable pub end_element : P (Unit {0})
end_element = do top; restore_context; pop

abbrev pub append_text : Setting → Object → Text → P (Unit {0})
append_text z o [] = return tt
append_text z o (b ∷ str) = do
  q ← on_heap (alloc (text_node z.string_type (b ∷ str)))
  on_heap (append_elem o.contents text_element_name (some q))

-- `characters`
unfoldable pub characters : Setting → Text → P (Unit {0})
characters z str = do
  o ← top
  st ← on_heap (get_schema_type o)
  append_text z o (apply_content_type_rules str (z.types st))

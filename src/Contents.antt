-- ===== src/Contents.antt =====
-- The class `Contents` of src/xmlbeansxx/Contents.h and Contents.cpp, a node of the document with
-- its attributes and elements, and its subclass `StringContents` (ContentsImpl.h), which holds a
-- text and has neither. Each operation is virtual: `by_kind` chooses the override. A call that
-- recurs through the pointers takes the depth that it may reach.
pub mod Simple
mod Examples
use xmlbeansxx.Prelude.{
  ℕ, zero, suc, ◌+◌, List, [], ◌∷◌, ◌++◌, Option, none, some, Bool, true, false, not, ◌&&◌, ◌||◌,
  ◌==◌, ltb, if◌then◌else◌, Text, codes, ℤ, pos,
}
use xmlbeansxx.QName.{QName, qname, empty_qname, qname_eq}
use xmlbeansxx.Dict
use xmlbeansxx.Dict.{ElemDict, DictEl, dict_el}
use xmlbeansxx.Heap.{
  Kind, plain, text, Node, Heap, Fault, bad_pointer, illegal_state, too_deep, Return, ok, fault, M,
  ◌>>=◌, ◌>>◌, return, fail, deref, load, store, alloc, plain_node, text_node,
}

-- `XmlBeans::textElementName()`, the name of a text among the elements.
abbrev pub text_element_name : QName
text_element_name = qname [] []

-- The override for a text, and the operation of the base class.
abbrev pub on_kind : {A : Type 0} → Kind → (Text → M A) → M A → M A
on_kind plain on_text on_plain = on_plain
on_kind (text value) on_text on_plain = on_text value

abbrev pub by_kind : {A : Type 0} → Node → (Text → M A) → M A → M A
by_kind n on_text on_plain = on_kind n.kind on_text on_plain

unfoldable pub get_attr : ℕ → QName → M (Option ℕ)
get_attr p name = do
  n ← load p
  by_kind n (λ value. return none) (return (Dict.find n.attrs name (pos 0)).value)

unfoldable pub set_attr : ℕ → QName → Option ℕ → M (Unit {0})
set_attr p name value = do
  n ← load p
  by_kind n (λ _. fail illegal_state)
      (store p record n { attrs = Dict.add (Dict.del n.attrs name).0 name value })

unfoldable pub get_elem : ℕ → QName → ℤ → M (Option ℕ)
get_elem p name index = do
  n ← load p
  by_kind n (λ value. return none) (return (Dict.find n.elems name index).value)

unfoldable pub set_elem : ℕ → QName → Option ℕ → ℤ → M (Unit {0})
set_elem p name value index = do
  n ← load p
  by_kind n (λ _. fail illegal_state)
      (store p record n { elems = Dict.set_at n.elems name index value })

abbrev pub is_some : Option ℕ → Bool
is_some none = false
is_some (some p) = true

unfoldable pub is_set_elem : ℕ → QName → ℤ → M Bool
is_set_elem p name index = do
  n ← load p
  by_kind n (λ value. return false) (return (is_some (Dict.find n.elems name index).value))

unfoldable pub remove_elems : ℕ → QName → M (Unit {0})
remove_elems p name = do
  n ← load p
  by_kind n (λ value. return tt) (store p record n { elems = (Dict.del n.elems name).0 })

unfoldable pub remove_elem_at : ℕ → QName → ℤ → M (Unit {0})
remove_elem_at p name index = do
  n ← load p
  by_kind n (λ value. return tt) (store p record n { elems = Dict.remove_at n.elems name index })

unfoldable pub count_elems : ℕ → QName → M ℕ
count_elems p name = do n ← load p; by_kind n (λ value. return 0) (return (Dict.count n.elems name))

unfoldable pub has_elements : ℕ → M Bool
has_elements p = do
  n ← load p
  by_kind n (λ value. return false) (return (ltb 0 (Dict.size n.elems)))

-- The pointers under one name, in the order of the elements.
unfoldable pub elem_array : ElemDict ℕ → QName → List (Option ℕ)
elem_array [] name = []
elem_array (it ∷ rest) name =
    let later = elem_array rest name in if qname_eq name it.name then it.value ∷ later else later

unfoldable pub get_elem_array : ℕ → QName → M (List (Option ℕ))
get_elem_array p name = do
  n ← load p
  by_kind n (λ value. return []) (return (elem_array n.elems name))

unfoldable pub has_empty_content : ℕ → M Bool
has_empty_content p = do
  n ← load p
  by_kind n (λ value. return true)
      (return (Dict.has_empty_content n.attrs && Dict.has_empty_content n.elems))

-- The elements, without the texts unless `all` is set.
unfoldable pub named_elems : Bool → ElemDict ℕ → ElemDict ℕ
named_elems all [] = []
named_elems all (it ∷ rest) =
    let later = named_elems all rest in
    if all || not (qname_eq it.name text_element_name) then it ∷ later else later

unfoldable pub get_elems : ℕ → Bool → M (ElemDict ℕ)
get_elems p all = do n ← load p; by_kind n (λ value. return []) (return (named_elems all n.elems))

-- `getAttrs2`
unfoldable pub get_attrs2 : ℕ → M (ElemDict ℕ)
get_attrs2 p = do n ← load p; by_kind n (λ value. return []) (return n.attrs)

-- One text behind another, each by `getSimpleContent`, here `of_text`.
unfoldable pub join_texts : (ℕ → M Text) → List (Option ℕ) → M Text
join_texts of_text [] = return []
join_texts of_text (t ∷ rest) = do
  p ← deref t
  s ← of_text p
  r ← join_texts of_text rest
  return (s ++ r)

-- `getSimpleContent`. The base class calls its own `getElemArray`, not an override.
unfoldable pub get_simple_content : ℕ → ℕ → M Text
get_simple_content zero p = fail too_deep
get_simple_content (suc depth) p = do
  n ← load p
  by_kind n return (join_texts (get_simple_content depth) (elem_array n.elems text_element_name))

-- `setSimpleContent`; `string_type` is the type of a new StringContents, XmlString::type().
unfoldable pub set_simple_content : ℕ → ℕ → Text → M (Unit {0})
set_simple_content string_type p c = do
  n ← load p
  by_kind n (λ value. store p record n { kind = text c })
      (do
        remove_elems p text_element_name
        elim c [
          | [] ↦ return tt
          | b ∷ s ↦ (do
            q ← alloc (text_node string_type (b ∷ s))
            set_elem p text_element_name (some q) (pos 0))
        ])

-- The simple contents of the attributes, by `Walker::getSimpleContent`: empty for a null pointer.
unfoldable pub attr_texts : ℕ → ElemDict ℕ → M (List (QName × Text))
attr_texts depth [] = return []
attr_texts depth (it ∷ rest) = do
  s ← elim it.value [ none ↦ return [] | some q ↦ get_simple_content depth q ]
  r ← attr_texts depth rest
  return ((it.name, s) ∷ r)

unfoldable pub get_attrs : ℕ → ℕ → M (List (QName × Text))
get_attrs depth p = do n ← load p; by_kind n (λ value. return []) (attr_texts depth n.attrs)

-- The copies of the values of a dictionary, each by `clone`, here `copy`.
unfoldable pub clone_dict : (ℕ → M ℕ) → ElemDict ℕ → M (ElemDict ℕ)
clone_dict copy [] = return []
clone_dict copy (it ∷ rest) = do
  v ← elim it.value [ none ↦ return none | some q ↦ (do q' ← copy q; return (some q')) ]
  r ← clone_dict copy rest
  return (dict_el it.name v ∷ r)

-- `clone`: a new object, into which the copies of the elements and of the attributes are put.
unfoldable pub clone : ℕ → ℕ → M ℕ
clone zero p = fail too_deep
clone (suc depth) p = do
  n ← load p
  by_kind n (λ value. alloc (text_node n.st value))
      (do
        q ← alloc (plain_node n.st)
        es ← clone_dict (clone depth) n.elems
        as' ← clone_dict (clone depth) n.attrs
        store q record (plain_node n.st) { attrs = as'; elems = es }
        return q)

unfoldable pub free : ℕ → M (Unit {0})
free p = do
  n ← load p
  by_kind n (λ value. store p record n { kind = text [] })
      (store p record n { attrs = []; elems = [] })

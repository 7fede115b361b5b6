-- ===== src/Cursor/Edits.antt =====
-- The operations of `XmlCursor` that read and change what stands at the cursor. A vector is
-- written in place; an insertion before its begin is undefined in C++, here a `bad_pointer`.
pub mod RoundTrip
use xmlbeansxx.Prelude.{
  ℕ, zero, suc, ◌+◌, ◌-◌, List, [], ◌∷◌, Option, none, some, Bool, true, false, not, ◌&&◌, ◌||◌,
  ◌==◌, ltb, leb, if◌then◌else◌, length, get_or, set, Text, ℤ, pos, negsuc,
}
use xmlbeansxx.QName.{QName, qname, qname_eq}
use xmlbeansxx.Dict.{ElemDict, DictEl, dict_el, no_el}
use xmlbeansxx.Heap.{
  Node, Heap, Fault, bad_pointer, illegal_state, Return, ok, fault, M, ◌>>=◌, ◌>>◌, return, fail,
  not_implemented, deref, load, store, alloc, text_node,
}
use xmlbeansxx.Contents.{text_element_name, get_attr, get_simple_content, set_simple_content}
use xmlbeansxx.Cursor.{
  Cursor, TokenType, count_all, checked_el, lift, get_pos, get_name, to_next_token, new_cursor,
  xmlns,
}
use xmlbeansxx.Cursor.Jumps.{to_first_child}

-- `insert(begin() + count, el)` and `erase(begin() + count)`, inside the vector.
abbrev pub insert_at : ℕ → DictEl ℕ → ElemDict ℕ → ElemDict ℕ
insert_at zero el l = el ∷ l
insert_at (suc i) el [] = el ∷ []
insert_at (suc i) el (x ∷ l) = x ∷ insert_at i el l

abbrev pub erase_at : ℕ → ElemDict ℕ → ElemDict ℕ
erase_at i [] = []
erase_at zero (x ∷ l) = l
erase_at (suc i) (x ∷ l) = x ∷ erase_at i l

abbrev pub at_most : ℕ → ℕ → ℕ
at_most i end = if ltb end i then end else i

-- With the contents of an XmlAnySimpleType.
unfoldable pub insert_attribute_with_value : Cursor → QName → Option ℕ → M ℕ
insert_attribute_with_value c name value = do
  n ← load c.contents
  elim c.position [
    | negsuc i ↦ fail bad_pointer
    | pos i ↦ (do
      let count = at_most i (length n.attrs)
      store c.contents record n { attrs = insert_at count (dict_el name value) n.attrs }
      return count)
  ]

-- `xml_string` is the generated constructor of XmlString from a text.
unfoldable pub insert_attribute_text : (Text → M (Option ℕ)) → Cursor → QName → Text → M ℕ
insert_attribute_text xml_string c name value = do
  v ← xml_string value
  insert_attribute_with_value c name v

abbrev pub insert_namespace : (Text → M (Option ℕ)) → Cursor → Text → Text → M ℕ
insert_namespace xml_string c prefix namespace_uri =
    insert_attribute_text xml_string c (qname xmlns prefix) namespace_uri

-- `count = pos - A`, at least 0 and at most B.
abbrev pub elem_index : ℤ → Node → ℕ
elem_index (negsuc i) n = 0
elem_index (pos i) n = at_most (i - length n.attrs) (length n.elems)

-- With the contents of an XmlObject.
unfoldable pub insert_element : Cursor → QName → Option ℕ → M ℕ
insert_element c name value = do
  n ← load c.contents
  let count = elem_index c.position n
  store c.contents record n { elems = insert_at count (dict_el name value) n.elems }
  return (count + length n.attrs)

-- `pos < A || pos > A+B`
abbrev pub no_content : ℤ → Node → Bool
no_content (negsuc i) n = true
no_content (pos i) n = ltb i (length n.attrs) || ltb (count_all n) i

-- `string_type` is the type of a new StringContents.
unfoldable pub insert_chars : ℕ → Cursor → Text → M (Unit {0})
insert_chars string_type c text = do
  n ← load c.contents
  if no_content c.position n then fail illegal_state else (do
    q ← alloc (text_node string_type text)
    store c.contents record n {
      elems = insert_at (elem_index c.position n) (dict_el text_element_name (some q)) n.elems;
    })

-- Without the attribute or element at a position, if there is one.
abbrev pub without : Node → ℕ → Node
without n i =
    if ltb i (length n.attrs)
    then record n { attrs = erase_at i n.attrs }
    else record n { elems = erase_at (i - length n.attrs) n.elems }

abbrev pub remove_in : ℕ → ℤ → Node → M Bool
remove_in p (negsuc i) n = return false
remove_in p (pos i) n =
    if leb (count_all n) i then return false else (store p (without n i) >> return true)

unfoldable pub remove_xml : Cursor → M Bool
remove_xml c = do n ← load c.contents; remove_in c.contents c.position n

abbrev pub renamed : QName → DictEl ℕ → DictEl ℕ
renamed name el = dict_el name el.value

-- The element at a position below A + B replaced.
abbrev pub with_el : Node → ℕ → DictEl ℕ → Node
with_el n i el =
    if ltb i (length n.attrs)
    then record n { attrs = set n.attrs i el }
    else record n { elems = set n.elems (i - length n.attrs) el }

abbrev pub nat_of : ℤ → ℕ
nat_of (pos i) = i
nat_of (negsuc i) = 0

unfoldable pub set_name : Cursor → QName → M (Unit {0})
set_name c name = do
  el ← get_pos c
  n ← load c.contents
  if qname_eq el.name text_element_name
      then fail illegal_state
      else store c.contents (with_el n (nat_of c.position) (renamed name el))

unfoldable pub get_attribute_text : ℕ → Cursor → QName → M Text
get_attribute_text depth c name = do
  a ← get_attr c.contents name
  elim a [ none ↦ return [] | some q ↦ get_simple_content depth q ]

-- `pos < 0 || pos >= A + B`
abbrev pub outside : ℤ → Node → Bool
outside (negsuc i) n = true
outside (pos i) n = leb (count_all n) i

abbrev pub value_here : Cursor → M ℕ
value_here c = do el ← get_pos c; deref el.value

unfoldable pub get_text_value : ℕ → Cursor → M Text
get_text_value depth c = do
  n ← load c.contents
  if outside c.position n then return [] else (do q ← value_here c; get_simple_content depth q)

unfoldable pub set_text_value : ℕ → Cursor → Text → M (Unit {0})
set_text_value string_type c s = do
  n ← load c.contents
  if outside c.position n
      then return tt
      else (do q ← value_here c; set_simple_content string_type q s)

-- `getObject`: the contents of the object. `xml_string` is the constructor of XmlString.
unfoldable pub get_object : (Text → M (Option ℕ)) → ℕ → Cursor → M (Option ℕ)
get_object xml_string depth c = do
  el ← get_pos c
  if qname_eq el.name text_element_name
      then (do q ← deref el.value; s ← get_simple_content depth q; xml_string s)
      else return el.value

-- `beginElement`: `new_instance` is the contents of XmlObject::Factory::newInstance().
unfoldable pub begin_element : M (Option ℕ) → Cursor → QName → M (TokenType × Cursor)
begin_element new_instance c name = do
  value ← new_instance
  insert_element c name value
  to_next_token c

-- `insertDocument`, with the contents of the document.
unfoldable pub insert_document : (Text → M (Option ℕ)) → ℕ → Cursor → Option ℕ → M ℕ
insert_document xml_string depth c none = fail illegal_state
insert_document xml_string depth c (some doc) = do
  r ← to_first_child (new_cursor doc)
  if r.0
      then (do
        name ← get_name r.1
        value ← get_object xml_string depth r.1
        insert_element c name value)
      else fail illegal_state

unfoldable pub compare_position : Cursor → Cursor → M ℤ
compare_position c cursor = fail not_implemented

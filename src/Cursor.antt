-- ===== src/Cursor.antt =====
-- `XmlCursor` of src/xmlbeansxx/XmlCursor.h and XmlCursor.cpp: a position in a document, which
-- moves from token to token. The tokens of a node are its attributes, its elements and its end.
-- A cursor on an object without contents cannot be made here; in the source its first use crashes.
-- An exception of the cursor is thrown before the cursor or the document are changed.
pub mod Moves
pub mod Track
pub mod Reading
pub mod Order
pub mod Jumps
pub mod Edits
mod Examples
use xmlbeansxx.Prelude.{
  ℕ, zero, suc, ◌+◌, ◌-◌, List, [], ◌∷◌, Option, none, some, Bool, true, false, not, ◌&&◌, ◌||◌,
  ◌==◌, ltb, leb, if◌then◌else◌, length, get_or, Text, codes, text_eq, ℤ, pos, negsuc, dec,
}
use xmlbeansxx.QName.{QName, qname, qname_eq}
use xmlbeansxx.Dict.{DictEl, no_el}
use xmlbeansxx.Heap.{
  Node, Heap, illegal_state, Return, ok, fault, M, ◌>>=◌, ◌>>◌, return, fail, load, node_of,
}
use xmlbeansxx.Contents.{text_element_name}

pub data TokenType : Type 0 where
  int_none : TokenType
  int_startdoc : TokenType
  int_enddoc : TokenType
  int_start : TokenType
  int_end : TokenType
  int_text : TokenType
  int_attr : TokenType
  int_namespace : TokenType
  int_comment : TokenType
  int_procinst : TokenType

-- `is_container`: a start-document or start-element token.
abbrev pub is_container : TokenType → Bool
is_container int_startdoc = true
is_container int_start = true
is_container t = false

-- An end-document or end-element token.
abbrev pub is_finish : TokenType → Bool
is_finish int_enddoc = true
is_finish int_end = true
is_finish t = false

abbrev pub is_start : TokenType → Bool
is_start int_start = true
is_start t = false

-- `stack` holds the positions in the nodes around the current one.
pub record Cursor : Type 0 where
  pub contents : ℕ
  pub position : ℤ
  pub stack : List (ℤ × ℕ)

unfoldable pub new_cursor : ℕ → Cursor
new_cursor o = record { contents = o; position = negsuc 0; stack = [] }

-- `XmlBeans::xmlns()` and `XmlBeans::xml_fragment()`
abbrev pub xmlns : Text
xmlns = codes "http://www.w3.org/2000/xmlns/"

abbrev pub xml_fragment : QName
xml_fragment = qname (codes "http://xmlbeans.apache.org/definitions") (codes "xml-fragment")

unfoldable pub get_attribute_type : QName → TokenType
get_attribute_type name = if text_eq name.namespace_uri xmlns then int_namespace else int_attr

unfoldable pub get_element_type : QName → TokenType
get_element_type name = if qname_eq name text_element_name then int_text else int_start

-- `countAttrs() + countElems()`
abbrev pub count_all : Node → ℕ
count_all n = length n.attrs + length n.elems

-- The attribute or element at a position below A + B.
abbrev pub el_at : Node → ℕ → DictEl ℕ
el_at n i =
    if ltb i (length n.attrs)
    then get_or n.attrs i no_el
    else get_or n.elems (i - length n.attrs) no_el

abbrev pub checked_el : Node → ℤ → Return (DictEl ℕ)
checked_el n (negsuc i) = fault illegal_state
checked_el n (pos i) = if leb (count_all n) i then fault illegal_state else ok (el_at n i)

abbrev pub lift : {A : Type 0} → Return A → M A
lift r h = (r, h)

unfoldable pub get_pos : Cursor → M (DictEl ℕ)
get_pos c = do n ← load c.contents; lift (checked_el n c.position)

abbrev pub name_or_fragment : Return (DictEl ℕ) → QName
name_or_fragment (ok el) = el.name
name_or_fragment (fault e) = xml_fragment

unfoldable pub get_name : Cursor → M QName
get_name c = do n ← load c.contents; return (name_or_fragment (checked_el n c.position))

abbrev pub is_empty : {A : Type 0} → List A → Bool
is_empty [] = true
is_empty (x ∷ l) = false

-- `currentTokenType` in a node, for an empty stack or another.
unfoldable pub token_at : Bool → Node → ℤ → TokenType
token_at top n (negsuc i) = if top && (i == 0) then int_startdoc else int_none
token_at top n (pos i) =
    if i == count_all n
    then (if top then int_enddoc else int_end)
    else if ltb (count_all n) i
    then int_none
    else if ltb i (length n.attrs)
    then get_attribute_type (el_at n i).name
    else get_element_type (el_at n i).name

unfoldable pub current_token_type : Cursor → M TokenType
current_token_type c = do n ← load c.contents; return (token_at (is_empty c.stack) n c.position)

abbrev pub at_pos : Cursor → ℤ → Cursor
at_pos c i = record c { position = i }

-- The cursor with its token, which a move returns.
abbrev pub arrive : Cursor → M (TokenType × Cursor)
arrive c = do t ← current_token_type c; return (t, c)

unfoldable pub remember_and_swap : Cursor → ℕ → Cursor
remember_and_swap c q = record {
  contents = q;
  position = pos 0;
  stack = (c.position, c.contents) ∷ c.stack;
}

-- `toParent`: the cursor and whether there was a parent.
abbrev pub restored : Cursor → List (ℤ × ℕ) → Bool × Cursor
restored c [] = (false, c)
restored c ((i, p) ∷ stack) = (true, record { contents = p; position = i; stack = stack })

unfoldable pub to_parent : Cursor → Bool × Cursor
to_parent c = restored c c.stack

abbrev pub up_or_back : Bool × Cursor → Cursor
up_or_back (true, c) = c
up_or_back (false, c) = at_pos c (dec c.position)

abbrev pub inc : ℤ → ℤ
inc (pos n) = pos (n + 1)
inc (negsuc zero) = pos 0
inc (negsuc (suc n)) = negsuc n

-- `isContainer() ? getPos().value : NULL`
abbrev pub container_value : Cursor → M (Option ℕ)
container_value c = do
  t ← current_token_type c
  if is_container t then (do el ← get_pos c; return el.value) else return none

abbrev pub enter_or_pass : Cursor → Option ℕ → M (TokenType × Cursor)
enter_or_pass c none = arrive (at_pos c (inc c.position))
enter_or_pass c (some q) = arrive (remember_and_swap c q)

-- `pos = A + B; toParent(); pos++;`
abbrev pub leave : Cursor → ℕ → Cursor
leave c end = let c' = (to_parent (at_pos c (pos end))).1 in at_pos c' (inc c'.position)

abbrev pub next_from : Cursor → Node → ℤ → M (TokenType × Cursor)
next_from c n (negsuc i) = arrive (at_pos c (inc (negsuc i)))
next_from c n (pos i) =
    if leb (count_all n) i
    then arrive (leave c (count_all n))
    else (do v ← container_value c; enter_or_pass c v)

unfoldable pub to_next_token : Cursor → M (TokenType × Cursor)
to_next_token c = do n ← load c.contents; next_from c n c.position

abbrev pub enter_last : Cursor → Option ℕ → M (TokenType × Cursor)
enter_last c none = arrive c
enter_last c (some q) = do n ← load q; arrive (at_pos (remember_and_swap c q) (pos (count_all n)))

abbrev pub back_to : Cursor → M (TokenType × Cursor)
back_to c = do v ← container_value c; enter_last c v

abbrev pub prev_from : Cursor → ℤ → M (TokenType × Cursor)
prev_from c (pos zero) = arrive (up_or_back (to_parent c))
prev_from c (pos (suc i)) = back_to (at_pos c (pos i))
prev_from c (negsuc i) = back_to (at_pos c (negsuc (suc i)))

unfoldable pub to_prev_token : Cursor → M (TokenType × Cursor)
to_prev_token c = prev_from c c.position

unfoldable pub has_next_token : Cursor → M Bool
has_next_token c =
    if is_empty c.stack
    then (do t ← current_token_type c; return (not (is_finish t)))
    else return true

unfoldable pub has_prev_token : Cursor → M Bool
has_prev_token c =
    if is_empty c.stack
    then (do t ← current_token_type c; return (not (is_container t)))
    else return true

-- ===== src/Cursor/Jumps.antt =====
-- The jumps of `XmlCursor` inside a node: to attributes, children, siblings, and to the start of
-- the document. A move returns whether it was made, and the cursor. An index is counted down from
-- a C++ int, whose wrap-around behind 2 ^ 31 elements is left out.
pub mod Siblings
use xmlbeansxx.Prelude.{
  ℕ, zero, suc, ◌+◌, ◌-◌, List, [], ◌∷◌, Option, none, some, Bool, true, false, not, ◌&&◌, ◌||◌,
  ◌==◌, ltb, leb, if◌then◌else◌, length, get_or, ℤ, pos, negsuc, dec, is_zero,
}
use xmlbeansxx.QName.{QName, qname_eq}
use xmlbeansxx.Dict.{ElemDict, DictEl, no_el}
use xmlbeansxx.Heap.{Node, Heap, Return, ok, M, ◌>>=◌, return, load}
use xmlbeansxx.Contents.{text_element_name}
use xmlbeansxx.Cursor.{
  Cursor, TokenType, int_none, is_container, is_start, count_all, get_pos, current_token_type,
  at_pos, arrive, restored, to_next_token, inc,
}

-- The tests of the loops: `getPos().name!=XmlBeans::textElementName()`, `getPos().name==name`.
abbrev pub not_text : QName → Bool
not_text name = not (qname_eq name text_element_name)

abbrev pub is_name : QName → QName → Bool
is_name name n = qname_eq n name

-- `for(;pos<A+B;pos++) if(test(getPos())) if(!(--index)) return true;` over the elements from
-- position `i` on.
unfoldable pub scan : (QName → Bool) → ElemDict ℕ → ℤ → ℕ → Option ℕ
scan test [] index i = none
scan test (el ∷ rest) index i =
    let hit = test el.name in
    let index' = if hit then dec index else index in
    let later = scan test rest index' (i + 1) in if hit && is_zero index' then some i else later

abbrev pub skip : ℕ → ElemDict ℕ → ElemDict ℕ
skip zero l = l
skip (suc k) [] = []
skip (suc k) (el ∷ l) = skip k l

-- `return true` at the position that was found, or `pos=_pos; return false`.
abbrev pub jumped : Cursor → Option ℕ → Bool × Cursor
jumped c none = (false, c)
jumped c (some i) = (true, at_pos c (pos i))

-- The two overloads of `toChild`.
unfoldable pub child_by : (QName → Bool) → Cursor → ℤ → M (Bool × Cursor)
child_by test c index = do
  n ← load c.contents
  return (jumped c (scan test n.elems index (length n.attrs)))

abbrev pub to_child : Cursor → ℤ → M (Bool × Cursor)
to_child = child_by not_text

abbrev pub to_child_named : Cursor → QName → ℤ → M (Bool × Cursor)
to_child_named c name = child_by (is_name name) c

abbrev pub to_first_child : Cursor → M (Bool × Cursor)
to_first_child c = to_child c (pos 1)

-- `pos>=A+B-1`
abbrev pub at_last : ℤ → ℕ → Bool
at_last (pos i) end = leb end (i + 1)
at_last (negsuc i) end = end + i == 0

-- `pos++; if(pos < A) pos = A;`
abbrev pub next_content : ℤ → ℕ → ℕ
next_content (negsuc i) a = a
next_content (pos i) a = if ltb (i + 1) a then a else i + 1

abbrev pub sibling_in : (QName → Bool) → Cursor → ℤ → Node → Bool × Cursor
sibling_in test c index n =
    if at_last c.position (count_all n)
    then (false, c)
    else (let i = next_content c.position (length n.attrs) in
        jumped c (scan test (skip (i - length n.attrs) n.elems) index i))

-- The two overloads of `toNextSibling`.
unfoldable pub sibling_by : (QName → Bool) → Cursor → ℤ → M (Bool × Cursor)
sibling_by test c index = do n ← load c.contents; return (sibling_in test c index n)

abbrev pub to_next_sibling : Cursor → ℤ → M (Bool × Cursor)
to_next_sibling = sibling_by not_text

abbrev pub to_next_sibling_named : Cursor → QName → ℤ → M (Bool × Cursor)
to_next_sibling_named c name = sibling_by (is_name name) c

-- `for(;pos>=A;pos--)` from the element before the first `k`.
unfoldable pub scan_back : Node → ℤ → ℕ → Option ℕ
scan_back n index zero = none
scan_back n index (suc k) =
    let hit = not_text (get_or n.elems k no_el).name in
    let index' = if hit then dec index else index in
    let later = scan_back n index' k in
    if hit && is_zero index' then some (length n.attrs + k) else later

-- `pos <= 1`
abbrev pub at_most_one : ℤ → Bool
at_most_one (negsuc i) = true
at_most_one (pos i) = leb i 1

abbrev pub nat_part : ℤ → ℕ
nat_part (negsuc i) = 0
nat_part (pos i) = i

-- `min(pos-1, A+B-1)` is the position of the last element that is looked at, of which there are
-- `min(pos, A+B) - A`.
abbrev pub before : ℕ → Node → ℕ
before i n = (if ltb (count_all n) i then count_all n else i) - length n.attrs

unfoldable pub to_prev_sibling : Cursor → ℤ → M (Bool × Cursor)
to_prev_sibling c index = do
  n ← load c.contents
  return (
      if at_most_one c.position
      then (false, c)
      else jumped c (scan_back n index (before (nat_part c.position) n)))

-- `pos = A+B`
abbrev pub at_end : Cursor → M Cursor
at_end c = do n ← load c.contents; return (at_pos c (pos (count_all n)))

unfoldable pub to_end_token : Cursor → M (TokenType × Cursor)
to_end_token c = do c' ← at_end c; arrive c'

-- A failed move leaves the cursor at `_pos`.
abbrev pub or_back : Cursor → Bool × Cursor → Bool × Cursor
or_back c (true, c') = (true, c')
or_back c (false, c') = (false, c)

unfoldable pub to_last_child : Cursor → M (Bool × Cursor)
to_last_child c = do c' ← at_end c; r ← to_prev_sibling c' (pos 1); return (or_back c r)

unfoldable pub to_first_attribute : Cursor → M (Bool × Cursor)
to_first_attribute c = do
  n ← load c.contents
  return (if length n.attrs == 0 then (false, c) else (true, at_pos c (pos 0)))

unfoldable pub to_last_attribute : Cursor → M (Bool × Cursor)
to_last_attribute c = do
  n ← load c.contents
  return (if length n.attrs == 0 then (false, c) else (true, at_pos c (pos (length n.attrs - 1))))

-- `pos < A-1`
abbrev pub has_attribute_behind : ℤ → ℕ → Bool
has_attribute_behind (pos i) a = ltb (i + 1) a
has_attribute_behind (negsuc i) a = ltb 0 (a + i)

unfoldable pub to_next_attribute : Cursor → M (Bool × Cursor)
to_next_attribute c = do
  n ← load c.contents
  return (
      if has_attribute_behind c.position (length n.attrs)
      then (true, at_pos c (inc c.position))
      else (false, c))

-- `if(pos > A) pos = A; pos --;`
abbrev pub prev_attribute : ℤ → ℕ → ℤ
prev_attribute (negsuc i) a = dec (negsuc i)
prev_attribute (pos i) a = if ltb a i then dec (pos a) else dec (pos i)

unfoldable pub to_prev_attribute : Cursor → M (Bool × Cursor)
to_prev_attribute c = do
  n ← load c.contents
  return (
      if length n.attrs == 0 || is_zero c.position
      then (false, c)
      else (true, at_pos c (prev_attribute c.position (length n.attrs))))

abbrev pub is_null : Option ℕ → Bool
is_null none = true
is_null (some q) = false

-- `isStart() && !(getPos().value)`
abbrev pub is_hollow : Cursor → M Bool
is_hollow c = do
  t ← current_token_type c
  if is_start t then (do el ← get_pos c; return (is_null el.value)) else return false

abbrev pub first_content : Cursor → M (TokenType × Cursor)
first_content c = do
  r ← to_next_token c
  n ← load r.1.contents
  arrive (at_pos r.1 (pos (length n.attrs)))

unfoldable pub to_first_content_token : Cursor → M (TokenType × Cursor)
to_first_content_token c = do
  hollow ← is_hollow c
  t ← current_token_type c
  if not hollow && is_container t then first_content c else return (int_none, c)

-- `while(toParent()){}`
unfoldable pub outermost : Cursor → List (ℤ × ℕ) → Cursor
outermost c [] = c
outermost c (f ∷ stack) = outermost (restored c (f ∷ stack)).1 stack

unfoldable pub to_start_doc : Cursor → Cursor
to_start_doc c = at_pos (outermost c c.stack) (pos 0)

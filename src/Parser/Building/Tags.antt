-- ===== src/Parser/Building/Tags.antt =====
-- The three callbacks of LibXMLParser (src/xmlbeansxx/LibXMLParser.cpp) inside an element: the tag of
-- a child that has neither a prefix nor attributes, the end of the child, and a text.
use xmlbeansxx.Prelude.{ℕ, List, [], ◌∷◌, Option, none, some, ◌≡◌, ◌≢◌, refl, ◌∙◌, ap, Text, false}
use xmlbeansxx.QName.{QName, qname}
use xmlbeansxx.NsMap.{lookup}
use xmlbeansxx.NsMap
use xmlbeansxx.Heap.{Node, Heap, plain, ok, M, alloc, plain_node, text_node, put_cell}
use xmlbeansxx.Heap.Laws.{update_other}
use xmlbeansxx.Contents.{text_element_name}
use xmlbeansxx.Walker.{append_elem}
use xmlbeansxx.Schema.{create_sub_object, apply_content_type_rules}
use xmlbeansxx.XmlContext.{XmlContext, remember}
use xmlbeansxx.Parser.{
  Object, Setting, State, StackEl, ◌>>=◌, ◌>>◌, return, on_heap, with_heap, or_throw, get_qname,
  namespace_uri, get_schema_type, create_contents, made_contents,
}
use xmlbeansxx.Parser.Elements.{
  characters, append_text, end_element, restore_context, restored, pop, open_element, or_sub_object,
  new_object, retype, not_null, append_new, open_under, fill, set_attributes, set_links, last_links,
  remember_context, push,
}
use xmlbeansxx.Parser.LibXml.{add_namespaces, attribute_name, attribute_value, start_element_ns}
use xmlbeansxx.Parser.Returns.{bind_ok}
use xmlbeansxx.Parser.Building.Steps.{
  Ready, last_links-Ready, restore-remember, Total, state, open_at, plain_start, with_child,
  append_elem-with_child, get_schema_type-at,
}

pub get_qname-default :
    (c : XmlContext) (ns name : Text) (stack : List StackEl) (h : Heap)
    → Ready c ns
    → get_qname none name false (state c stack h) ≡ (ok (qname ns name), state c stack h)
unfolding get_qname namespace_uri NsMap.get_namespace_uri
get_qname-default c ns name stack h ready =
    bind_ok (namespace_uri []) (λ u. return (qname u name)) (state c stack h)
      (ap (λ o. or_throw (NsMap.or_throw o) (state c stack h)) ready.default)

fill-nothing :
    (z : Setting) (c : XmlContext) (ns : Text) (n : Object) (stack : List StackEl) (h : Heap)
    → Ready c ns
    → fill z attribute_name attribute_name attribute_value n [] (state c stack h)
      ≡ (ok tt, state (remember c) stack h)
unfolding fill set_attributes set_links remember_context
fill-nothing z c ns n stack h ready =
    bind_ok last_links (λ links. set_links z n links >> remember_context) (state c stack h)
      (last_links-Ready c ns stack h ready)

module _ (z : Setting) (child : ℕ → QName → ℕ) (total : Total z child) (c : XmlContext) (ns : Text)
    (ready : Ready c ns) (origin p : ℕ) (parent : QName) (others : List StackEl) (h : Heap)
    (n : Node) (at : h.cell p ≡ some n) (is_plain : n.kind ≡ plain) where
  abbrev stack : List StackEl
  stack = open_at origin p parent ∷ others

  -- The heap with the contents of the child `x`, which its parent holds.
  abbrev pub child_heap : QName → Heap
  child_heap x = put_cell (alloc (plain_node (child n.st x)) h).1 p (with_child n x h.next)

  append_new-child :
      (x : QName)
      → h.next ≢ p
      → append_new z attribute_name attribute_name attribute_value
          (made_contents origin p)
          x
          []
          (record { contents = none; origin = child n.st x })
          (state c stack h)
        ≡ (ok tt, state (remember c) (open_at (child n.st x) h.next x ∷ stack) (child_heap x))
  unfolding create_contents
  append_new-child x apart =
      bind_ok (fill z attribute_name attribute_name attribute_value n' [])
        (λ _.
          on_heap (append_elem (some p) x (some h.next)) >> push (record { obj = n'; name = x }))
        (state c stack h1) (fill-nothing z c ns n' stack h1 ready)
      ∙ bind_ok (on_heap (append_elem (some p) x (some h.next)))
          (λ _. push (record { obj = n'; name = x })) (state (remember c) stack h1)
          (ap (with_heap (state (remember c) stack h1)) (
            append_elem-with_child p x h.next h1 n
              (update_other h.cell h.next (plain_node (child n.st x)) p apart ∙ at) is_plain))
    where
      n' : Object
      n' = made_contents (child n.st x) h.next

      h1 : Heap
      h1 = (alloc (plain_node (child n.st x)) h).1

  or_sub_object-child :
      (x : QName)
      → or_sub_object z (made_contents origin p) x none (state c stack h)
        ≡ (ok (some (record { contents = none; origin = child n.st x })), state c stack h)
  or_sub_object-child x =
      bind_ok (on_heap (get_schema_type (made_contents origin p)))
        (λ st. on_heap (sub st) >>= λ t. return (new_object t)) (state c stack h)
        (ap (with_heap (state c stack h)) (get_schema_type-at origin p h n at))
      ∙ bind_ok (on_heap (sub n.st)) (λ t. return (new_object t)) (state c stack h)
          (ap (with_heap (state c stack h)) (total.sub n.st x h))
    where
      sub : ℕ → M (Option ℕ)
      sub st = create_sub_object z.types z.type_system z.xml_object z.depth st x

  pub open_under-child :
      (x : QName)
      → h.next ≢ p
      → open_under z attribute_name attribute_name attribute_value
          (made_contents origin p)
          x
          []
          none
          (state c stack h)
        ≡ (ok tt, state (remember c) (open_at (child n.st x) h.next x ∷ stack) (child_heap x))
  unfolding retype
  open_under-child x apart =
      bind_ok (or_sub_object z (made_contents origin p) x none)
        (λ sub. retype z attribute_name attribute_name attribute_value [] sub >>= λ typed.
          not_null typed
          >>= append_new z attribute_name attribute_name attribute_value (made_contents origin p) x
              [])
        (state c stack h) (or_sub_object-child x)
      ∙ append_new-child x apart

-- The tag of a child.
pub start_element_ns-child :
    (z : Setting) (child : ℕ → QName → ℕ) (total : Total z child) (c : XmlContext) (ns : Text)
    (ready : Ready c ns) (origin p : ℕ) (parent : QName) (e2 : StackEl) (rest : List StackEl)
    (h : Heap) (n : Node) (at : h.cell p ≡ some n) (is_plain : n.kind ≡ plain) (name : Text)
    → h.next ≢ p
    → start_element_ns z (plain_start name) (state c (open_at origin p parent ∷ e2 ∷ rest) h) ≡ (
      ok tt,
      state
          (remember c)
          (open_at (child n.st (qname ns name)) h.next (qname ns name)
            ∷ open_at origin p parent
            ∷ e2
            ∷ rest)
          (put_cell
            (alloc (plain_node (child n.st (qname ns name))) h).1
            p
            (with_child n (qname ns name) h.next)),
    )
unfolding start_element_ns add_namespaces open_element create_contents
start_element_ns-child z child total c ns ready origin p parent e2 rest h n at is_plain name apart =
    bind_ok (get_qname none name false)
      (λ y. open_element z attribute_name attribute_name attribute_value y [])
      (state c (open_at origin p parent ∷ e2 ∷ rest) h)
      (get_qname-default c ns name (open_at origin p parent ∷ e2 ∷ rest) h ready)
    ∙ open_under-child z child total c ns ready origin p parent (e2 ∷ rest) h n at is_plain
        (qname ns name) apart

-- The end of a child.
pub end_element-child :
    (c : XmlContext) (ns : Text) (el : StackEl) (stack : List StackEl) (h : Heap)
    → Ready c ns
    → end_element (state (remember c) (el ∷ stack) h) ≡ (ok tt, state c stack h)
unfolding end_element restore_context pop
end_element-child c ns el stack h ready =
    bind_ok restore_context (λ _. pop) (state (remember c) (el ∷ stack) h)
      (ap (λ o. restored o (state (remember c) (el ∷ stack) h)) (restore-remember c ns ready))

-- The heap with a text that its parent holds, where the text is not empty.
abbrev pub text_heap : ℕ → ℕ → Heap → Node → Text → Heap
text_heap string_type p h n [] = h
text_heap string_type p h n (b ∷ str) =
    put_cell (alloc (text_node string_type (b ∷ str)) h).1 p (with_child n text_element_name h.next)

pub characters-child :
    (z : Setting) (str : Text) (c : XmlContext) (origin p : ℕ) (parent : QName)
    (rest : List StackEl) (h : Heap) (n : Node)
    → h.cell p ≡ some n
    → n.kind ≡ plain
    → h.next ≢ p
    → characters z str (state c (open_at origin p parent ∷ rest) h) ≡ (
      ok tt,
      state c
          (open_at origin p parent ∷ rest)
          (text_heap z.string_type p h n (apply_content_type_rules str (z.types n.st))),
    )
unfolding characters
characters-child z str c origin p parent rest h n at is_plain apart =
    bind_ok (on_heap (get_schema_type (made_contents origin p)))
      (λ st. append_text z (made_contents origin p) (apply_content_type_rules str (z.types st))) s
      (ap (with_heap s) (get_schema_type-at origin p h n at))
    ∙ by_text (apply_content_type_rules str (z.types n.st))
  where
    s : State
    s = state c (open_at origin p parent ∷ rest) h

    by_text :
        (t : Text)
        → append_text z (made_contents origin p) t s
          ≡ (ok tt, state c (open_at origin p parent ∷ rest) (text_heap z.string_type p h n t))
    by_text [] = refl
    by_text (b ∷ t) = ap (with_heap s) (
        append_elem-with_child p text_element_name h.next
          (alloc (text_node z.string_type (b ∷ t)) h).1 n
          (update_other h.cell h.next (text_node z.string_type (b ∷ t)) p apart ∙ at) is_plain)

-- ===== src/Parser/Building/Steps.antt =====
-- The callbacks of LibXMLParser (src/xmlbeansxx/LibXMLParser.cpp) inside an element, at a tag that
-- has neither a prefix nor attributes: what they do to the contents.
use xmlbeansxx.Prelude.{
  ℕ, ◌-◌, List, [], ◌∷◌, ◌++◌, none, some, ◌≡◌, refl, ◌∙◌, ap, sym, Text, length, take, arith,
}
use mathlib.Core.List.{reverse}
use xmlbeansxx.QName.{QName}
use xmlbeansxx.NsMap.{lookup}
use xmlbeansxx.Dict.{dict_el}
use xmlbeansxx.Dict.Appending.{set_at-count}
use xmlbeansxx.Heap.{
  Node, Heap, plain, text, ok, M, load, alloc, plain_node, text_node, put_cell, update, node_of,
}
use xmlbeansxx.Heap
use xmlbeansxx.Walker.{append_elem}
use xmlbeansxx.Walker.Arrays.{append_elem-plain}
use xmlbeansxx.Schema.{create_sub_object}
use xmlbeansxx.XmlContext.{
  XmlContext, remember, restore, restore_to, restore_loop, get_last_stored_links, with_namespaces,
  top_or_zero,
}
use xmlbeansxx.Parser.{Setting, State, StackEl, or_throw, get_schema_type, made_contents}
use xmlbeansxx.Parser.Elements.{last_links}
use xmlbeansxx.Parser.LibXml.{Start}

-- The default namespace is declared, and the position in the namespaces remembered.
pub record Ready (c : XmlContext) (ns : Text) : Type 0 where
  pub default : lookup [] c.prefix_map ≡ some ns
  pub earlier : List ℕ
  pub position : c.remembered ≡ length c.restore_links ∷ earlier

pub Ready-remember : (c : XmlContext) (ns : Text) → Ready c ns → Ready (remember c) ns
unfolding remember
Ready-remember c ns h = record { default = h.default; earlier = c.remembered; position = refl }

no_rounds : (n : ℕ) → n - n ≡ 0
no_rounds n = omega arith

pub last_links-Ready :
    (c : XmlContext) (ns : Text) (stack : List StackEl) (h : Heap)
    → Ready c ns
    → last_links (record { xml_context = c; nodes_stack = stack; heap = h })
      ≡ (ok [], record { xml_context = c; nodes_stack = stack; heap = h })
unfolding get_last_stored_links
last_links-Ready c ns stack h ready =
    ap (λ r. or_throw r (record { xml_context = c; nodes_stack = stack; heap = h }))
      (ap
          (λ l.
            with_namespaces c.prefix_map
              (reverse (take (length c.restore_links - top_or_zero l) c.restore_links)))
          ready.position
        ∙ ap (λ k. with_namespaces c.prefix_map (reverse (take k c.restore_links)))
            (no_rounds (length c.restore_links)))

pub restore-remember : (c : XmlContext) (ns : Text) → Ready c ns → restore (remember c) ≡ some c
unfolding restore remember restore_loop
restore-remember c ns ready =
    ap (restore_to (record c { remembered = length c.restore_links ∷ c.remembered })) ready.position
    ∙ ap (λ k. some (restore_loop k back)) (no_rounds (length c.restore_links))
    ∙ ap (λ l. some (record c { remembered = l })) (sym ready.position)
  where
    back : XmlContext
    back = record c { remembered = length c.restore_links ∷ ready.earlier }

-- The type of the element of each name below each type, where createSubObject finds one.
pub record Total (z : Setting) (child : ℕ → QName → ℕ) : Type 0 where
  pub sub :
      (st : ℕ) (x : QName) (h : Heap)
      → create_sub_object z.types z.type_system z.xml_object z.depth st x h
        ≡ (ok (some (child st x)), h)

abbrev pub state : XmlContext → List StackEl → Heap → State
state c stack h = record { xml_context = c; nodes_stack = stack; heap = h }

abbrev pub open_at : ℕ → ℕ → QName → StackEl
open_at origin p x = record { obj = made_contents origin p; name = x }

abbrev pub plain_start : Text → Start
plain_start name = record { localname = name; prefix = none; namespaces = []; attributes = [] }

abbrev pub with_child : Node → QName → ℕ → Node
with_child n x q = record n { elems = n.elems ++ dict_el x (some q) ∷ [] }

pub append_elem-with_child :
    (p : ℕ) (x : QName) (q : ℕ) (h : Heap) (n : Node)
    → h.cell p ≡ some n
    → n.kind ≡ plain
    → append_elem (some p) x (some q) h ≡ (ok tt, put_cell h p (with_child n x q))
append_elem-with_child p x q h n at is_plain =
    append_elem-plain p x (some q) h n at is_plain
    ∙ ap (λ d. (ok tt, put_cell h p record n { elems = d })) (set_at-count n.elems x (some q))

pub get_schema_type-at :
    (origin p : ℕ) (h : Heap) (n : Node)
    → h.cell p ≡ some n
    → get_schema_type (made_contents origin p) h ≡ (ok n.st, h)
unfolding get_schema_type
get_schema_type-at origin p h n at =
    ap (λ o. Heap.and_then (node_of o h) (λ m h'. (ok m.st, h'))) at

-- ===== src/Parser/Building.antt =====
-- What LibXMLParser (src/xmlbeansxx/LibXMLParser.cpp) makes of the content of an element: the tree
-- of contents that the tags and texts describe. The tags have neither prefixes nor attributes.
pub mod Steps
pub mod Tags
pub mod Runs
pub mod Documents
mod Examples
use xmlbeansxx.Prelude.{
  ℕ, zero, suc, ◌+◌, ◌≤◌, ◌<◌, List, [], ◌∷◌, ◌++◌, append-nil, append_assoc, Option, none, some,
  ◌≡◌, ◌≢◌, refl, ◌∙◌, ap, sym, subst, Text, arith,
}
use xmlbeansxx.QName.{QName, qname}
use xmlbeansxx.Dict.{ElemDict, dict_el}
use xmlbeansxx.Heap.{
  Node, Heap, Return, ok, fault, plain, alloc, plain_node, text_node, put_cell, update,
}
use xmlbeansxx.Heap.Laws.{update_self, update_other}
use xmlbeansxx.Contents.{text_element_name}
use xmlbeansxx.Schema.{apply_content_type_rules}
use xmlbeansxx.XmlContext.{XmlContext, remember}
use xmlbeansxx.Parser.{Setting, State, StackEl, and_then}
use xmlbeansxx.Parser.Elements.{characters, end_element}
use xmlbeansxx.Parser.LibXml.{Event, start_element, end_tag, text, start_element_ns, callback, run}
use xmlbeansxx.Parser.Returns.{bind_ok}
use xmlbeansxx.Parser.Building.Steps.{
  Ready, Ready-remember, Total, state, open_at, plain_start, with_child,
}
use xmlbeansxx.Parser.Building.Tags.{
  child_heap, start_element_ns-child, end_element-child, text_heap, characters-child,
}

-- Texts and elements, each with what follows it.
pub data Content : Type 0 where
  done : Content
  chars : Text → Content → Content
  element : Text → Content → Content → Content

unfoldable pub events : Content → List Event
events done = []
events (chars str more) = text str ∷ events more
events (element name inner more) =
    start_element (plain_start name) ∷ events inner ++ end_tag ∷ events more

run-append :
    (z : Setting) (xs ys : List Event) (s : State)
    → run z (xs ++ ys) s ≡ and_then (run z xs s) (λ _. run z ys)
unfolding run
run-append z [] ys s = refl
run-append z (x ∷ xs) ys s = by_result (callback z x s) (λ t. run-append z xs ys t)
  where
    by_result :
        (r : Return (Unit {0}) × State)
        → ((t : State) → run z (xs ++ ys) t ≡ and_then (run z xs t) (λ _. run z ys))
        → and_then r (λ _. run z (xs ++ ys)) ≡ and_then (and_then r (λ _. run z xs)) (λ _. run z ys)
    by_result (ok u, t) k = k t
    by_result (fault e, t) k = refl

module _ (z : Setting) (child : ℕ → QName → ℕ) (ns : Text) where
  -- A text, where it is not empty, and the elements behind it.
  abbrev pub BuiltText : Heap → ℕ → ℕ → Text → (ℕ → ElemDict ℕ → Type 0) → ElemDict ℕ → Type 0
  BuiltText h lo hi [] Rest d = Rest lo d
  BuiltText h lo hi (b ∷ str) Rest d =
      (q : ℕ) × (d' : ElemDict ℕ) × (d ≡ dict_el text_element_name (some q) ∷ d')
      × (lo ≤ q)
      × (q < hi)
      × (h.cell q ≡ some (text_node z.string_type (b ∷ str)))
      × Rest (q + 1) d'

  -- The elements `d` of an object of the type `st` are those of the content, in their order. All
  -- that they hold stands at addresses of its own, at `lo` or behind it and before `hi`.
  abbrev pub Built : Heap → ℕ → ℕ → ℕ → Content → ElemDict ℕ → Type 0
  Built h lo hi st done d = d ≡ []
  Built h lo hi st (chars str more) d =
      BuiltText h lo hi (apply_content_type_rules str (z.types st))
        (λ lo' d'. Built h lo' hi st more d') d
  Built h lo hi st (element name inner more) d =
      (q : ℕ) × (n : Node) × (mid : ℕ) × (d' : ElemDict ℕ) × (d
        ≡ dict_el (qname ns name) (some q) ∷ d')
      × (lo ≤ q)
      × (q < mid)
      × (mid ≤ hi)
      × (h.cell q ≡ some n)
      × (n.kind ≡ plain)
      × (n.attrs ≡ [])
      × (n.st ≡ child st (qname ns name))
      × Built h (q + 1) mid (child st (qname ns name)) inner n.elems
      × Built h mid hi st more d'

  -- The addresses between two are left alone.
  abbrev pub Kept : Heap → Heap → ℕ → ℕ → Type 0
  Kept h h' lo hi = (r : ℕ) → lo ≤ r → r < hi → h'.cell r ≡ h.cell r

  Built-Kept :
      (m : Content) (h h' : Heap) (lo hi st : ℕ) (d : ElemDict ℕ)
      → Kept h h' lo hi
      → Built h lo hi st m d
      → Built h' lo hi st m d
  Built-Kept done h h' lo hi st d kept b = b
  Built-Kept (chars str more) h h' lo hi st d kept b =
      by_text (apply_content_type_rules str (z.types st))
        (λ lo' d' le. Built-Kept more h h' lo' hi st d' (λ r i j. kept r (omega arith) j)) b
    where
      by_text :
          (t : Text)
          → ((lo' : ℕ) (d' : ElemDict ℕ)
              → lo ≤ lo'
              → Built h lo' hi st more d'
              → Built h' lo' hi st more d')
          → BuiltText h lo hi t (λ lo' d'. Built h lo' hi st more d') d
          → BuiltText h' lo hi t (λ lo' d'. Built h' lo' hi st more d') d
      by_text [] k b = k lo d (omega arith) b
      by_text (c ∷ t) k (q, d', e, le, lt, at, b) =
          (q, d', e, le, lt, kept q le lt ∙ at, k (q + 1) d' (omega arith) b)
  Built-Kept (element name inner more) h h' lo hi st d kept
        (q, n, mid, d', e, le, lt, top, at, is_plain, attrs, typed, b, b') =
      (
        q,
        n,
        mid,
        d',
        e,
        le,
        lt,
        top,
        kept q le (omega arith) ∙ at,
        is_plain,
        attrs,
        typed,
        Built-Kept inner h h' (q + 1) mid (child st (qname ns name)) n.elems
            (λ r i j. kept r (omega arith) (omega arith)) b,
        Built-Kept more h h' mid hi st d' (λ r i j. kept r (omega arith) j) b',
      )

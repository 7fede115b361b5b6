-- ===== src/Parser/Building/Documents.antt =====
-- `LibXMLParser::parse` of a whole document: src/xmlbeansxx/LibXMLParser.cpp.
use xmlbeansxx.Prelude.{
  ℕ, ◌+◌, ◌<◌, List, [], ◌∷◌, ◌++◌, none, some, false, ◌≡◌, refl, ◌∙◌, ap, Text, arith,
}
use xmlbeansxx.QName.{QName, qname, empty_qname}
use xmlbeansxx.Heap.{
  Node, Heap, Return, ok, plain, M, return, fail, store, alloc, plain_node, put_cell, text,
}
use xmlbeansxx.Heap
use xmlbeansxx.Heap.Laws.{update_self, update_other}
use xmlbeansxx.Contents
use xmlbeansxx.Contents.{named_elems}
use xmlbeansxx.Contents.Simple.{on_plain}
use xmlbeansxx.Walker.{get_elems}
use xmlbeansxx.Schema.{create_document_by_name}
use xmlbeansxx.XmlContext.{XmlContext, remember}
use xmlbeansxx.Parser.{
  Setting, State, StackEl, on_heap, with_heap, create_contents, made_contents, get_qname, ◌>>=◌,
  ◌>>◌,
}
use xmlbeansxx.Parser.Elements.{
  top, set_top, begin, root_element, predefined, free_object, set_document_root, open_under,
  open_element,
}
use xmlbeansxx.Parser.LibXml.{
  Event, end_tag, attribute_name, attribute_value, start_element_ns, add_namespaces, callback, run,
  parse, check_error, document_of,
}
use xmlbeansxx.Parser.Returns.{bind_ok}
use xmlbeansxx.Parser.Building.{Content, done, element, events, Built}
use xmlbeansxx.Parser.Building.Steps.{
  Ready, Ready-remember, Total, state, open_at, plain_start, with_child,
}
use xmlbeansxx.Parser.Building.Tags.{get_qname-default, open_under-child}
use xmlbeansxx.Parser.Building.Runs.{run_element, run-Builds, new_cell, written}

module _ (z : Setting) (c : XmlContext) (o p : ℕ) (parent : QName) (h : Heap)
    (at : h.cell p ≡ some (plain_node o)) where
  get_elems-empty : get_elems (some p) h ≡ (ok [], h)
  unfolding get_elems Contents.get_elems named_elems
  get_elems-empty =
      on_plain p h (plain_node o) (λ m value. return []) (λ m. return (named_elems false m.elems))
        at refl

  free-empty : Contents.free p h ≡ (ok tt, put_cell h p (plain_node o))
  unfolding Contents.free
  free-empty =
      on_plain p h (plain_node o) (λ m value. store p record m { kind = text [] })
        (λ m. store p record m { attrs = []; elems = [] }) at refl

  -- The one object on the stack is empty: it loses its contents.
  root_element-empty :
      (x : QName)
      → create_document_by_name z.types z.type_system x ≡ none
      → begin z x (state c (open_at o p parent ∷ []) h) ≡ (
        ok (none, x),
        state c
            (record { obj = record { contents = none; origin = o }; name = parent } ∷ [])
            (put_cell h p (plain_node o)),
      )
  unfolding root_element free_object
  root_element-empty x undeclared =
      bind_ok (on_heap (get_elems (some p)))
        (λ e. predefined z x e >>= λ r. on_heap (free_object (made_contents o p)) >>= λ o'.
          set_top o'
          >> (set_document_root z o' (create_document_by_name z.types z.type_system r.1)
              >> (λ s. (ok r, s))))
        s (ap (with_heap s) get_elems-empty)
      ∙ bind_ok (on_heap (free_object (made_contents o p)))
          (λ o'.
            set_top o'
            >> (set_document_root z o' (create_document_by_name z.types z.type_system x)
                >> (λ s. (ok (none, x), s))))
          s
          (ap
            (λ (r : Return (Unit {0}) × Heap).
              with_heap s
                (Heap.and_then r (λ _ h'. (ok (record { contents = none; origin = o }), h'))))
            free-empty)
      ∙ ap
          (λ t.
            (set_document_root z (record { contents = none; origin = o }) t
                >> (λ s. (ok (none, x), s)))
              (state c (record { obj = record { contents = none; origin = o }; name = parent } ∷ [])
                (put_cell h p (plain_node o))))
          undeclared
    where
      s : State
      s = state c (open_at o p parent ∷ []) h

module _ (z : Setting) (child : ℕ → QName → ℕ) (total : Total z child) (c : XmlContext) (ns : Text)
    (ready : Ready c ns) (o : ℕ) where
  -- The heap when the document has new contents: those it was given at first are not used.
  abbrev pub emptied : Heap → Heap
  emptied h = (alloc (plain_node o) (put_cell (alloc (plain_node o) h).1 h.next (plain_node o))).1

  abbrev pub root_heap : Heap → QName → Heap
  root_heap h x =
      put_cell (alloc (plain_node (child o x)) (emptied h)).1 (h.next + 1)
        (with_child (plain_node o) x (emptied h).next)

  -- The tag of the root.
  start_element_ns-root :
      (name : Text) (h : Heap)
      → create_document_by_name z.types z.type_system (qname ns name) ≡ none
      → start_element_ns z
          (plain_start name)
          (state c (open_at o h.next empty_qname ∷ []) (alloc (plain_node o) h).1)
        ≡ (
          ok tt,
          state
              (remember c)
              (open_at (child o (qname ns name)) (emptied h).next (qname ns name)
                ∷ open_at o (h.next + 1) empty_qname
                ∷ [])
              (root_heap h (qname ns name)),
        )
  unfolding start_element_ns add_namespaces open_element create_contents
  start_element_ns-root name h undeclared =
      bind_ok (get_qname none name false)
        (λ y. open_element z attribute_name attribute_name attribute_value y []) s
        (get_qname-default c ns name (open_at o h.next empty_qname ∷ []) (alloc (plain_node o) h).1
          ready)
      ∙ bind_ok (begin z (qname ns name))
          (λ r. top >>= λ a. on_heap (create_contents a) >>= λ a'.
            set_top a' >> open_under z attribute_name attribute_name attribute_value a' r.1 [] r.0)
          s
          (root_element-empty z c o h.next empty_qname (alloc (plain_node o) h).1
            (update_self h.cell h.next (plain_node o)) (qname ns name) undeclared)
      ∙ open_under-child z child total c ns ready o (h.next + 1) empty_qname [] (emptied h)
          (plain_node o) (update_self _ (h.next + 1) (plain_node o)) refl (qname ns name)
          (λ e. absurd (omega (arith, e)))
    where
      s : State
      s = state c (open_at o h.next empty_qname ∷ []) (alloc (plain_node o) h).1

  -- The document that was parsed, and the heap that it stands in.
  abbrev pub Parsed : (Text → List Event × ℕ) → Text → Text → Content → List StackEl → Heap → Type 0
  Parsed sax doc name inner old h =
      (h' : Heap) × (p : ℕ) × (n : Node) × (parse z sax doc (record { contents = none; origin = o })
          (state c old h)
        ≡ (ok (made_contents o p), state c (open_at o p empty_qname ∷ []) h'))
      × (h'.cell p ≡ some n)
      × (n.kind ≡ plain)
      × (n.st ≡ o)
      × (n.attrs ≡ [])
      × Built z child ns h' (p + 1) h'.next o (element name inner done) n.elems
      × ((r : ℕ) → r < h.next → h'.cell r ≡ h.cell r)

  -- `parse` of a document without prefixes and attributes into a new document object returns,
  -- where libxml2 gives the callbacks of the document and no error, a default namespace is
  -- declared, createSubObject finds a type for every name, and no type of document has the name of
  -- the root: the document has one element, which is the root, with the elements and texts of the
  -- document below it, in their order and nested as there, each in contents of its own and of the
  -- type that its parent's type gives. The document alone is left on the stack, the namespaces
  -- are as before, and so is every object that was there.
  pub parse-Parsed :
      (sax : Text → List Event × ℕ) (doc name : Text) (inner : Content) (old : List StackEl)
      (h : Heap)
      → sax doc ≡ (events (element name inner done), 0)
      → create_document_by_name z.types z.type_system (qname ns name) ≡ none
      → Parsed sax doc name inner old h
  unfolding parse create_contents events run callback
  parse-Parsed sax doc name inner old h gives undeclared =
      let (h', d, ran, at, built, le, kept) =
        run-Builds z child ns inner (remember c) (child o x) q x (open_at o p empty_qname) []
          (root_heap h x) (plain_node (child o x)) total (Ready-remember c ns ready)
          (new_cell z child ns (emptied h) p (plain_node (child o x)) n (omega arith)) refl
          (omega arith) in
      (
        h',
        p,
        n,
        ap
              (λ (e : List Event × ℕ).
                (run z e.0 >> (check_error e.1 >> document_of (made_contents o h.next))) s)
              gives
            ∙ bind_ok (run z (events (element name inner done)))
                (λ _. check_error 0 >> document_of (made_contents o h.next)) s
                (bind_ok (start_element_ns z (plain_start name))
                    (λ _. run z (events inner ++ end_tag ∷ [])) s
                    (start_element_ns-root name h undeclared)
                  ∙ run_element z child ns inner done c (open_at (child o x) q x)
                      (open_at o p empty_qname ∷ []) (root_heap h x) h' ready ran),
        kept p (omega arith) (λ e. absurd (omega (arith, e))) ∙ update_self _ p n,
        refl,
        refl,
        refl,
        (
          q,
          record (plain_node (child o x)) { elems = d },
          h'.next,
          [],
          refl,
          omega arith,
          omega (arith, le),
          omega arith,
          at,
          refl,
          refl,
          refl,
          built,
          refl,
        ),
        λ r i.
            kept r (omega (arith, i)) (λ e. absurd (omega (arith, i, e)))
            ∙ written z child ns (emptied h) p r (plain_node (child o x)) n (omega (arith, i))
                (λ e. absurd (omega (arith, i, e)))
            ∙ update_other _ p (plain_node o) r (λ e. absurd (omega (arith, i, e)))
            ∙ update_other _ h.next (plain_node o) r (λ e. absurd (omega (arith, i, e)))
            ∙ update_other h.cell h.next (plain_node o) r (λ e. absurd (omega (arith, i, e))),
      )
    where
      x : QName
      x = qname ns name

      p : ℕ
      p = h.next + 1

      q : ℕ
      q = (emptied h).next

      n : Node
      n = with_child (plain_node o) x q

      s : State
      s = state c (open_at o h.next empty_qname ∷ []) (alloc (plain_node o) h).1

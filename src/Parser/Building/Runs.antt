-- ===== src/Parser/Building/Runs.antt =====
-- The callbacks of the content of an element, one after another: src/xmlbeansxx/LibXMLParser.cpp.
use xmlbeansxx.Prelude.{
  ℕ, ◌+◌, ◌≤◌, ◌<◌, List, [], ◌∷◌, ◌++◌, append-nil, append_assoc, some, ◌≡◌, ◌≢◌, refl, ◌∙◌, ap,
  sym, Text, arith,
}
use xmlbeansxx.QName.{QName, qname}
use xmlbeansxx.Dict.{ElemDict, dict_el}
use xmlbeansxx.Heap.{Node, Heap, ok, plain, alloc, plain_node, text_node, put_cell}
use xmlbeansxx.Heap.Laws.{update_self, update_other}
use xmlbeansxx.Contents.{text_element_name}
use xmlbeansxx.Schema.{apply_content_type_rules}
use xmlbeansxx.XmlContext.{XmlContext, remember}
use xmlbeansxx.Parser.{Setting, StackEl, and_then}
use xmlbeansxx.Parser.Elements.{characters, end_element}
use xmlbeansxx.Parser.LibXml.{end_tag, start_element_ns, callback, run}
use xmlbeansxx.Parser.Returns.{bind_ok}
use xmlbeansxx.Parser.Building.{
  Content, done, chars, element, events, run-append, Built, BuiltText, Built-Kept,
}
use xmlbeansxx.Parser.Building.Steps.{
  Ready, Ready-remember, Total, state, open_at, plain_start, with_child,
}
use xmlbeansxx.Parser.Building.Tags.{
  start_element_ns-child, end_element-child, text_heap, characters-child,
}

module _ (z : Setting) (child : ℕ → QName → ℕ) (ns : Text) where
  -- The callbacks return in the state they began in, but for the heap. The object at `p` has the
  -- elements of the content behind its own, in new contents, and all others are as they were.
  abbrev pub Builds : Content → XmlContext → List StackEl → ℕ → Node → Heap → Type 0
  Builds m c stack p n h =
      (h' : Heap) × (d : ElemDict ℕ) × (run z (events m) (state c stack h)
        ≡ (ok tt, state c stack h'))
      × (h'.cell p ≡ some (record n { elems = n.elems ++ d }))
      × Built z child ns h' h.next h'.next n.st m d
      × (h.next ≤ h'.next)
      × ((r : ℕ) → r < h.next → r ≢ p → h'.cell r ≡ h.cell r)

  -- A first element at `q`, and then the others.
  snoc_first :
      (n : Node) (x : QName) (q : ℕ) (d : ElemDict ℕ)
      → some (record (with_child n x q) { elems = (with_child n x q).elems ++ d })
        ≡ some (record n { elems = n.elems ++ dict_el x (some q) ∷ d })
  snoc_first n x q d =
      ap (λ l. some (record n { elems = l })) (append_assoc n.elems (dict_el x (some q) ∷ []) d)

  pub written :
      (h : Heap) (p r : ℕ) (a b : Node)
      → r < h.next
      → r ≢ p
      → (put_cell (alloc a h).1 p b).cell r ≡ h.cell r
  written h p r a b lt other =
      update_other (alloc a h).1.cell p b r (λ e. other (sym e))
      ∙ update_other h.cell h.next a r (λ e. absurd (omega (arith, e)))

  pub new_cell :
      (h : Heap) (p : ℕ) (a b : Node)
      → p < h.next
      → (put_cell (alloc a h).1 p b).cell h.next ≡ some a
  new_cell h p a b lt =
      update_other (alloc a h).1.cell p b h.next (λ e. absurd (omega (arith, e)))
      ∙ update_self h.cell h.next a

  -- A text has been read.
  after_text :
      (more : Content) (c : XmlContext) (stack : List StackEl) (p : ℕ) (n : Node) (h : Heap)
      (t : Text)
      → h.cell p ≡ some n
      → p < h.next
      → ((n' : Node) (h' : Heap)
          → h'.cell p ≡ some n'
          → n'.kind ≡ n.kind
          → p < h'.next
          → Builds more c stack p n' h')
      → (h' : Heap) × (d : ElemDict ℕ) × (run z
            (events more)
            (state c stack (text_heap z.string_type p h n t))
          ≡ (ok tt, state c stack h'))
        × (h'.cell p ≡ some (record n { elems = n.elems ++ d }))
        × BuiltText z child ns h' h.next h'.next t
            (λ lo d'. Built z child ns h' lo h'.next n.st more d')
            d
        × (h.next ≤ h'.next)
        × ((r : ℕ) → r < h.next → r ≢ p → h'.cell r ≡ h.cell r)
  after_text more c stack p n h [] at lt k = k n h at refl lt
  after_text more c stack p n h (b ∷ t) at lt k =
      let (h', d, run, at', built, le, kept) =
        k n1 h1 (update_self _ p n1) refl (omega (arith, lt)) in
      (
        h',
        dict_el text_element_name (some h.next) ∷ d,
        run,
        at' ∙ snoc_first n text_element_name h.next d,
        (
          h.next,
          d,
          refl,
          omega arith,
          omega (arith, le),
          kept h.next (omega arith) (λ e. absurd (omega (arith, e, lt)))
              ∙ new_cell h p (text_node z.string_type (b ∷ t)) n1 lt,
          built,
        ),
        omega (arith, le),
        λ r i other.
            kept r (omega arith) other ∙ written h p r (text_node z.string_type (b ∷ t)) n1 i other,
      )
    where
      n1 : Node
      n1 = with_child n text_element_name h.next

      h1 : Heap
      h1 = text_heap z.string_type p h n (b ∷ t)

  -- The content of an element, and then its end.
  pub run_element :
      (inner more : Content) (c : XmlContext) (el : StackEl) (stack : List StackEl) (h h' : Heap)
      → Ready c ns
      → run z (events inner) (state (remember c) (el ∷ stack) h)
        ≡ (ok tt, state (remember c) (el ∷ stack) h')
      → run z (events inner ++ end_tag ∷ events more) (state (remember c) (el ∷ stack) h)
        ≡ run z (events more) (state c stack h')
  unfolding run callback
  run_element inner more c el stack h h' ready e =
      run-append z (events inner) (end_tag ∷ events more) (state (remember c) (el ∷ stack) h)
      ∙ ap (λ r. and_then r (λ _. run z (end_tag ∷ events more))) e
      ∙ bind_ok end_element (λ _. run z (events more)) (state (remember c) (el ∷ stack) h')
          (end_element-child c ns el stack h' ready)

  -- Inside an element whose contents stand at `p`, below the addresses of new objects, where a
  -- default namespace is declared and createSubObject finds a type for every name, the callbacks
  -- of a content without prefixes and attributes return: the elements and texts of the content
  -- stand behind those that were there, in their order and nested as in the document, each in
  -- contents of its own and of the type that its parent's type gives, the texts as the content
  -- rules of that type leave them and none where they leave nothing; the parser and every other
  -- object are as before.
  pub run-Builds :
      (m : Content) (c : XmlContext) (origin p : ℕ) (parent : QName) (e2 : StackEl)
      (rest : List StackEl) (h : Heap) (n : Node)
      → Total z child
      → Ready c ns
      → h.cell p ≡ some n
      → n.kind ≡ plain
      → p < h.next
      → Builds m c (open_at origin p parent ∷ e2 ∷ rest) p n h
  unfolding run events callback
  run-Builds done c origin p parent e2 rest h n total ready at is_plain lt = (
    h,
    [],
    refl,
    at ∙ ap (λ l. some (record n { elems = l })) (sym (append-nil n.elems)),
    refl,
    omega arith,
    λ r i other. refl,
  )
  run-Builds (chars str more) c origin p parent e2 rest h n total ready at is_plain lt =
      let t = apply_content_type_rules str (z.types n.st) in
      let (h', d, ran, at', built, le, kept) =
        after_text more c (open_at origin p parent ∷ e2 ∷ rest) p n h t at lt (λ n' h1 at1 same lt1.
          run-Builds more c origin p parent e2 rest h1 n' total ready at1 (same ∙ is_plain) lt1) in
      (
        h',
        d,
        bind_ok (characters z str) (λ _. run z (events more))
              (state c (open_at origin p parent ∷ e2 ∷ rest) h)
              (characters-child z str c origin p parent (e2 ∷ rest) h n at is_plain
                (λ e. absurd (omega (arith, e, lt))))
            ∙ ran,
        at',
        built,
        le,
        kept,
      )
  run-Builds (element name inner more) c origin p parent e2 rest h n total ready at is_plain lt =
      let x = qname ns name in
      let a = plain_node (child n.st x) in
      let n1 = with_child n x h.next in
      let e = open_at origin p parent in
      let h1 = put_cell (alloc a h).1 p n1 in
      let apart : h.next ≢ p = λ u. absurd (omega (arith, u, lt)) in
      let (h2, d2, run2, at2, built2, le2, kept2) =
        run-Builds inner (remember c) (child n.st x) h.next x e (e2 ∷ rest) h1 a total
          (Ready-remember c ns ready) (new_cell h p a n1 lt) refl (omega arith) in
      let (h3, d3, run3, at3, built3, le3, kept3) =
        run-Builds more c origin p parent e2 rest h2 n1 total ready
          (kept2 p (omega (arith, lt)) (λ u. apart (sym u)) ∙ update_self _ p n1) is_plain
          (omega (arith, lt, le2)) in
      (
        h3,
        dict_el x (some h.next) ∷ d3,
        bind_ok (start_element_ns z (plain_start name))
              (λ _. run z (events inner ++ end_tag ∷ events more)) (state c (e ∷ e2 ∷ rest) h)
              (start_element_ns-child z child total c ns ready origin p parent e2 rest h n at
                is_plain name apart)
            ∙ run_element inner more c (open_at (child n.st x) h.next x) (e ∷ e2 ∷ rest) h1 h2 ready
                run2
            ∙ run3,
        at3 ∙ snoc_first n x h.next d3,
        (
          h.next,
          record a { elems = d2 },
          h2.next,
          d3,
          refl,
          omega arith,
          omega (arith, le2),
          le3,
          kept3 h.next (omega (arith, le2)) apart ∙ at2,
          refl,
          refl,
          refl,
          Built-Kept z child ns inner h2 h3 (h.next + 1) h2.next (child n.st x) d2
              (λ r i j. kept3 r j (λ u. absurd (omega (arith, i, u, lt)))) built2,
          built3,
        ),
        omega (arith, le2, le3),
        λ r i other.
            kept3 r (omega (arith, i, le2)) other
            ∙ kept2 r (omega (arith, i)) (λ u. absurd (omega (arith, u, i)))
            ∙ written h p r a n1 i other,
      )

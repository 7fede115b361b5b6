-- ===== src/Parser/Reuse.antt =====
-- A parser that is used again: LibXMLParser::parse, src/xmlbeansxx/LibXMLParser.cpp.
use xmlbeansxx.Prelude.{
  ℕ, zero, suc, List, [], ◌∷◌, ◌≡◌, refl, ◌∙◌, ap, sym, subst, Text, ◌==◌, if◌then◌else◌,
  Bool-cases, inl, inr,
}
use xmlbeansxx.QName.{empty_qname}
use xmlbeansxx.Heap.{ok}
use xmlbeansxx.XmlContext.{XmlContext}
use xmlbeansxx.XmlContext.Scopes.{Back}
use xmlbeansxx.Parser.{Object, Setting, State, on_heap, create_contents, ◌>>◌}
use xmlbeansxx.Parser.Elements.{push}
use xmlbeansxx.Parser.LibXml.{
  Event, run, parse, clear, check_error, document_of, bottom, lines, first_line, append_lines,
  parse_stream,
}
use xmlbeansxx.Parser.Returns.{Holds, Quiet-on_heap, Holds-bind, Holds-Quiet-bind}
use xmlbeansxx.Parser.Ending.{Placed, Ends}
use xmlbeansxx.Parser.Balanced.{Markup, events, Holds-run}
use xmlbeansxx.Parser.Opening.{AtTop}

-- What a document leaves of the parser and of its namespaces `c`.
abbrev pub Left : XmlContext → Object → State → Type 0
Left c o t =
    (t.nodes_stack ≡ record { obj = o; name = empty_qname } ∷ [])
    × Back c t.xml_context
    × (t.xml_context.remembered ≡ c.remembered)

Holds-parse :
    (z : Setting) (sax : Text → List Event × ℕ) (doc : Text) (document_root : Object) (m : Markup)
    (s : State)
    → Placed s.xml_context
    → (sax doc).0 ≡ events m
    → Holds (Left s.xml_context) (parse z sax doc document_root s)
unfolding parse
Holds-parse z sax doc document_root m s placed e =
    Holds-Quiet-bind (Left c) (on_heap (create_contents document_root)) _ (clear s).1
      (Quiet-on_heap (create_contents document_root))
      λ o t k.
        Holds-bind Q (Left c) (run z (sax doc).0) (λ _. check_error (sax doc).1 >> document_of o)
          (push (record { obj = o; name = empty_qname }) t).1
          (subst (λ l. Holds Q (run z l (push (record { obj = o; name = empty_qname }) t).1))
            (sym e)
            (Holds-run z m c empty_qname [] (push (record { obj = o; name = empty_qname }) t).1
              placed
              (record {
                el = record { obj = o; name = empty_qname };
                stack = ap (λ l. record { obj = o; name = empty_qname } ∷ l) k.stack;
                named = refl;
                context = k.context;
              })))
          λ _ u (c', back, same, at). checked o (sax doc).1 u c' back same at
  where
    c : XmlContext
    c = s.xml_context

    Q : Unit {0} → State → Type 0
    Q _ = Ends c empty_qname []

    checked :
        (o : Object) (n : ℕ) (u : State) (c' : XmlContext)
        → Back c c'
        → c'.remembered ≡ c.remembered
        → AtTop c' empty_qname [] u
        → Holds (Left c) ((check_error n >> document_of o) u)
    checked o zero u c' back same at = (
      at.stack
          ∙ ap (λ n. record { obj = at.el.obj; name = n } ∷ []) at.named
          ∙ ap (λ o'. record { obj = o'; name = empty_qname } ∷ []) (sym (ap (bottom o) at.stack)),
      subst (Back c) (sym at.context) back,
      ap (λ k. k.remembered) at.context ∙ same,
    )
    checked o (suc n) u c' back same at = tt

-- Where `parse` returns from a well-formed document, begun with the position in the namespaces
-- remembered, the one object left on the stack is the document that it gives; every prefix that was
-- declared in the parser is declared for the same namespace, one that was not is undeclared or
-- stands for the empty namespace; and the links and the positions remembered are those of before.
pub parse-Left :
    (z : Setting) (sax : Text → List Event × ℕ) (doc : Text) (document_root o : Object) (m : Markup)
    (s t : State)
    → Placed s.xml_context
    → (sax doc).0 ≡ events m
    → parse z sax doc document_root s ≡ (ok o, t)
    → Left s.xml_context o t
parse-Left z sax doc document_root o m s t placed e returns =
    subst (Holds (Left s.xml_context)) returns (Holds-parse z sax doc document_root m s placed e)

-- A line end, byte 10, is no part of the text that is parsed.
unfoldable pub without_line_ends : Text → Text
without_line_ends [] = []
without_line_ends (c ∷ s) = let rest = without_line_ends s in if c == 10 then rest else c ∷ rest

append_lines-first_line :
    (c : ℕ) (l : List Text) → append_lines (first_line c l) ≡ c ∷ append_lines l
append_lines-first_line c [] = refl
append_lines-first_line c (line ∷ l) = refl

append_lines-lines : (s : Text) → append_lines (lines s) ≡ without_line_ends s
unfolding lines without_line_ends
append_lines-lines [] = refl
append_lines-lines (c ∷ s) = elim (Bool-cases (c == 10)) [
  | inl end ↦ rw end (append_lines-lines s)
  | inr other ↦
      rw other (append_lines-first_line c (lines s) ∙ ap (λ l. c ∷ l) (append_lines-lines s))
]

-- Reading a document from a stream is parsing the text of the stream with every line end taken
-- out: what stood on two lines is joined, in texts and between the attributes of a tag.
pub parse_stream-parse :
    (z : Setting) (sax : Text → List Event × ℕ) (input : Text) (o : Object) (s : State)
    → parse_stream z sax input o s ≡ parse z sax (without_line_ends input) o s
unfolding parse_stream
parse_stream-parse z sax input o s = ap (λ doc. parse z sax doc o s) (append_lines-lines input)

-- ===== src/Parser/Building/Examples.antt =====
-- Small documents and what is built of them.
use xmlbeansxx.Prelude.{ℕ, List, [], ◌∷◌, refl, Text, codes, arith}
use xmlbeansxx.QName.{qname, empty_qname}
use xmlbeansxx.Heap.{alloc, plain_node, update}
use xmlbeansxx.Schema.{lookup, create_document_by_name}
use xmlbeansxx.XmlContext.{new_context}
use xmlbeansxx.Parser.LibXml.{Event}
use xmlbeansxx.Parser.Building.{Content, done, chars, element, events}
use xmlbeansxx.Parser.Building.Steps.{open_at}
use xmlbeansxx.Parser.Building.Runs.{Builds, run-Builds}
use xmlbeansxx.Parser.Building.Documents.{Parsed, parse-Parsed}
use xmlbeansxx.Parser.Samples.{setting, empty_heap, new_context-Ready, setting-Total}

-- A root with a text and an element in it is under way.
abbrev small : Content
small = chars (codes "hi") (element (codes "b") (chars (codes "x") done) done)

run-Builds_example :
    Builds setting
      (λ st x. 0)
      []
      small
      new_context
      (open_at 0 0 (qname [] (codes "a")) ∷ open_at 0 5 empty_qname ∷ [])
      0
      (plain_node 0)
      (alloc (plain_node 0) empty_heap).1
run-Builds_example =
    run-Builds setting (λ st x. 0) [] small new_context 0 0 (qname [] (codes "a"))
      (open_at 0 5 empty_qname) [] (alloc (plain_node 0) empty_heap).1 (plain_node 0) setting-Total
      new_context-Ready (unfold update in refl) refl (omega arith)

-- A document of nested elements and a text.
abbrev sax : Text → List Event × ℕ
sax doc = (events (element (codes "a") small done), 0)

parse-Parsed_example :
    Parsed setting
      (λ st x. 0)
      setting-Total
      new_context
      []
      new_context-Ready
      0
      sax
      (codes "<a>hi<b>x</b></a>")
      (codes "a")
      small
      []
      empty_heap
parse-Parsed_example =
    parse-Parsed setting (λ st x. 0) setting-Total new_context [] new_context-Ready 0 sax
      (codes "<a>hi<b>x</b></a>") (codes "a") small [] empty_heap refl
      (unfold create_document_by_name lookup in refl)

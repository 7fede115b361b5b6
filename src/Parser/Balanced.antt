-- ===== src/Parser/Balanced.antt =====
-- Well-formed documents: the callbacks of LibXMLParser (src/xmlbeansxx/LibXMLParser.cpp) in which
-- every start has its end, and what is left of the parser behind them.
use xmlbeansxx.Prelude.{List, [], ◌∷◌, ◌++◌, some, true, false, ◌≡◌, refl, ◌∙◌, ap, Text}
use xmlbeansxx.QName.{QName}
use xmlbeansxx.Heap.{Return, ok, fault}
use xmlbeansxx.Schema.{apply_content_type_rules}
use xmlbeansxx.Heap
use xmlbeansxx.Walker.{append_elem}
use xmlbeansxx.Contents.{text_element_name}
use xmlbeansxx.XmlContext.{XmlContext, remember}
use xmlbeansxx.XmlContext.Scopes.{declare_all, Back, Back-refl}
use xmlbeansxx.Parser.{Setting, State, StackEl, Object, on_heap, get_qname, get_schema_type}
use xmlbeansxx.Parser.Elements.{characters, append_text, end_element, top, open_element}
use xmlbeansxx.Parser.LibXml.{
  Start, Attribute, Event, start_element, end_tag, text, add_namespaces, attribute_name,
  attribute_value, start_element_ns, callback, run,
}
use xmlbeansxx.Parser.Returns.{
  Holds, Same-refl, Quiet, Quiet-on_heap, Quiet-bind, Quiet-get_qname, Holds-bind, Holds-Quiet-bind,
  Holds-instead,
}
use xmlbeansxx.Parser.Quiet.{Quiet-top}
use xmlbeansxx.Parser.Opening.{AtTop, AtTop-Same, OpenIn, Holds-open_element}
use xmlbeansxx.Parser.Ending.{
  bindings, add_namespaces-declare_all, Placed, Ends, Holds-end_element, Placed-Back, Ends-Back,
}

-- What stands between a start and its end: a text or an element, and what follows it.
pub data Markup : Type 0 where
  done : Markup
  chars : Text → Markup → Markup
  element : Start → Markup → Markup → Markup

unfoldable pub events : Markup → List Event
events done = []
events (chars str more) = text str ∷ events more
events (element e inner more) = start_element e ∷ events inner ++ end_tag ∷ events more

Quiet-append_text : (z : Setting) (o : Object) (str : Text) → Quiet (append_text z o str)
Quiet-append_text z o [] = Same-refl
Quiet-append_text z o (b ∷ str) =
    Quiet-bind {B = Unit {0}} (on_heap (Heap.alloc (Heap.text_node z.string_type (b ∷ str))))
      (λ q. on_heap (append_elem o.contents text_element_name (some q)))
      (Quiet-on_heap (Heap.alloc (Heap.text_node z.string_type (b ∷ str))))
      λ q. Quiet-on_heap (append_elem o.contents text_element_name (some q))

Quiet-characters : (z : Setting) (str : Text) → Quiet (characters z str)
unfolding characters
Quiet-characters z str = Quiet-bind top _ Quiet-top λ o.
    Quiet-bind (on_heap (get_schema_type o))
      (λ st. append_text z o (apply_content_type_rules str (z.types st)))
      (Quiet-on_heap (get_schema_type o))
      λ st. Quiet-append_text z o (apply_content_type_rules str (z.types st))

Holds-append :
    (z : Setting) (R Q : Unit {0} → State → Type 0) (xs ys : List Event) (s : State)
    → Holds R (run z xs s)
    → ((t : State) → R tt t → Holds Q (run z ys t))
    → Holds Q (run z (xs ++ ys) s)
unfolding run
Holds-append z R Q [] ys s h k = k s h
Holds-append z R Q (x ∷ xs) ys s h k =
    Holds-instead R Q (callback z x s) (λ _. run z xs) (λ _. run z (xs ++ ys)) h
      λ _ t h'. Holds-append z R Q xs ys t h' k

Holds-start :
    (z : Setting) (e : Start) (c : XmlContext) (name : QName) (rest : List StackEl) (s : State)
    → AtTop c name rest s
    → Holds (λ _. OpenIn (declare_all c (bindings e.namespaces)) name rest) (start_element_ns z e s)
unfolding start_element_ns
Holds-start z e c name rest s h =
    Holds-Quiet-bind (λ _. OpenIn d name rest) (get_qname e.prefix e.localname false)
      (λ x. open_element z attribute_name attribute_name attribute_value x e.attributes) stored
      (Quiet-get_qname e.prefix e.localname false)
      λ x t k.
        Holds-open_element z attribute_name attribute_name attribute_value named named x
          e.attributes t (AtTop-Same at k)
  where
    d : XmlContext
    d = declare_all c (bindings e.namespaces)

    stored : State
    stored = record s { xml_context = add_namespaces s.xml_context e.namespaces }

    named : (a : Attribute) → Quiet (attribute_name a)
    named a = Quiet-get_qname a.prefix a.localname true

    at : AtTop d name rest stored
    at = record {
      el = h.el;
      stack = h.stack;
      named = h.named;
      context =
          add_namespaces-declare_all s.xml_context e.namespaces
          ∙ ap (λ c. declare_all c (bindings e.namespaces)) h.context;
    }

pub Holds-run :
    (z : Setting) (m : Markup) (c : XmlContext) (name : QName) (rest : List StackEl) (s : State)
    → Placed c
    → AtTop c name rest s
    → Holds (λ _. Ends c name rest) (run z (events m) s)
unfolding run events callback remember
Holds-run z done c name rest s placed h = (c, Back-refl c, refl, h)
Holds-run z (chars str more) c name rest s placed h =
    Holds-Quiet-bind (λ _. Ends c name rest) (characters z str) (λ _. run z (events more)) s
      (Quiet-characters z str) λ _ t k. Holds-run z more c name rest t placed (AtTop-Same h k)
Holds-run z (element e inner more) c name rest s placed h =
    Holds-bind (λ _. OpenIn d name rest) Q (start_element_ns z e)
      (λ _. run z (events inner ++ end_tag ∷ events more)) s (Holds-start z e c name rest s h)
      λ _ t (el, x, named, at).
        Holds-append z (λ _. Ends (remember d) x (el ∷ rest)) Q (events inner)
          (end_tag ∷ events more) t
          (Holds-run z inner (remember d) x (el ∷ rest) t (d.remembered, refl) at)
          λ u (c2, back2, same2, at2).
            Holds-bind Q Q end_element (λ _. run z (events more)) u
              (Holds-end_element c c2 (bindings e.namespaces) name x el rest u placed (back2, same2)
                named at2)
              λ _ v (c', back, same, at').
                after v c' back same
                  (Holds-run z more c' name rest v (Placed-Back c c' placed back same) at')
  where
    d : XmlContext
    d = declare_all c (bindings e.namespaces)

    Q : Unit {0} → State → Type 0
    Q _ = Ends c name rest

    after :
        (v : State) (c' : XmlContext)
        → Back c c'
        → c'.remembered ≡ c.remembered
        → Holds (λ _. Ends c' name rest) (run z (events more) v)
        → Holds Q (run z (events more) v)
    after v c' back same = by_result (run z (events more) v)
      where
        by_result : (r : Return (Unit {0}) × State) → Holds (λ _. Ends c' name rest) r → Holds Q r
        by_result (ok u, t) k = Ends-Back c c' name rest t back same k
        by_result (fault f, t) k = tt

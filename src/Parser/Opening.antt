-- ===== src/Parser/Opening.antt =====
-- What the opening of an element does to the stack of open elements and to the namespaces:
-- `startElementNs` of src/xmlbeansxx/LibXMLParser.cpp and `startElement` of XercesParser.cpp.
use xmlbeansxx.Prelude.{ℕ, List, [], ◌∷◌, Option, none, some, ◌≡◌, refl, ◌∙◌, ap, Text}
use xmlbeansxx.QName.{QName}
use xmlbeansxx.Heap.{M}
use xmlbeansxx.Schema.{create_document_by_name}
use xmlbeansxx.Walker.{get_elems, append_elem}
use xmlbeansxx.XmlContext.{XmlContext, get_last_stored_links, remember}
use xmlbeansxx.Parser.{Object, StackEl, Setting, State, P, return, on_heap, create_contents}
use xmlbeansxx.Parser.Elements.{
  top, set_top, with_top, push, remember_context, free_object, predefined, set_document_root,
  root_element, root_or_inner, begin, or_sub_object, not_null, retype, set_attributes, set_links,
  last_links, fill, append_new, open_element,
}
use xmlbeansxx.Parser.Returns.{
  Holds, Same, Same-trans, Quiet, Quiet-on_heap, Quiet-or_throw, Holds-bind, Holds-Quiet-bind,
}
use xmlbeansxx.Parser.Quiet.{
  Quiet-top, Quiet-not_null, Quiet-predefined, Quiet-or_sub_object, Quiet-set_links, Quiet-retype,
  Quiet-set_attributes,
}

-- An element of that name is open over `rest`, in the namespaces `c`.
pub record AtTop (c : XmlContext) (name : QName) (rest : List StackEl) (s : State) : Type 0 where
  pub el : StackEl
  pub stack : s.nodes_stack ≡ el ∷ rest
  pub named : el.name ≡ name
  pub context : s.xml_context ≡ c

module _ {c : XmlContext} {name : QName} {rest : List StackEl} where
  pub AtTop-Same : {s t : State} → AtTop c name rest s → Same s t → AtTop c name rest t
  AtTop-Same h k = record {
    el = h.el;
    stack = k.stack ∙ h.stack;
    named = h.named;
    context = k.context ∙ h.context;
  }

  AtTop-set_top : (o : Object) (s : State) → AtTop c name rest s → AtTop c name rest (set_top o s).1
  AtTop-set_top o s h = record {
    el = record h.el { obj = o };
    stack = ap (with_top o) h.stack;
    named = h.named;
    context = h.context;
  }

  module _ (z : Setting) where
    Holds-set_document_root :
        (o : Object) (t : Option ℕ) (s : State)
        → AtTop c name rest s
        → Holds (λ _. AtTop c name rest) (set_document_root z o t s)
    Holds-set_document_root o none s h = h
    Holds-set_document_root o (some t) s h =
        Holds-Quiet-bind (λ _. AtTop c name rest) (on_heap made) _ s (Quiet-on_heap made)
          λ root u k.
            Holds-Quiet-bind (λ _. AtTop c name rest) (on_heap (z.set_xml_object o root)) set_top u
              (Quiet-on_heap (z.set_xml_object o root))
              λ o' v l. AtTop-set_top o' v (AtTop-Same h (Same-trans k l))
      where
        made : M Object
        made = create_contents (record { contents = none; origin = t })

    Holds-root_element :
        (x : QName) (s : State)
        → AtTop c name rest s
        → Holds (λ _. AtTop c name rest) (root_element z x s)
    unfolding root_element
    Holds-root_element x s h = Holds-Quiet-bind Q top _ s Quiet-top λ o t k.
        Holds-Quiet-bind Q (on_heap (get_elems o.contents)) _ t
          (Quiet-on_heap (get_elems o.contents))
          λ e u l. Holds-Quiet-bind Q (predefined z x e) _ u (Quiet-predefined z x e) λ r v m.
            Holds-Quiet-bind Q (on_heap (free_object o)) _ v (Quiet-on_heap (free_object o))
              λ o' w n.
                Holds-bind (λ _. AtTop c name rest) Q
                  (set_document_root z o' (create_document_by_name z.types z.type_system r.1))
                  (λ _. return r) (set_top o' w).1
                  (Holds-set_document_root o' (create_document_by_name z.types z.type_system r.1)
                    (set_top o' w).1
                    (AtTop-set_top o' w
                      (AtTop-Same h (Same-trans k (Same-trans l (Same-trans m n))))))
                  λ _ y a. a
      where
        Q : Option Object × QName → State → Type 0
        Q r = AtTop c name rest

    Holds-begin :
        (x : QName) (s : State) → AtTop c name rest s → Holds (λ _. AtTop c name rest) (begin z x s)
    Holds-begin x s h = by_stack s.nodes_stack
      where
        by_stack : (l : List StackEl) → Holds (λ _. AtTop c name rest) (root_or_inner z x l s)
        by_stack [] = tt
        by_stack (e ∷ []) = Holds-root_element x s h
        by_stack (e ∷ e2 ∷ l) = h

Quiet-last_links : Quiet last_links
Quiet-last_links s = Quiet-or_throw (get_last_stored_links s.xml_context) s

-- The new element is open over the one that was.
abbrev pub OpenIn : XmlContext → QName → List StackEl → State → Type 0
OpenIn c name rest t =
    (el : StackEl) × (x : QName) × (el.name ≡ name) × AtTop (remember c) x (el ∷ rest) t

push_over :
    (c : XmlContext) (name : QName) (rest : List StackEl) (el : StackEl) (s : State)
    → AtTop (remember c) name rest s
    → OpenIn c name rest (push el s).1
push_over c name rest el s h = (
  h.el,
  el.name,
  h.named,
  record { el = el; stack = ap (λ l. el ∷ l) h.stack; named = refl; context = h.context },
)

module _ {A : Type 0} (z : Setting) (test_name attr_name : A → P QName) (value : A → Text)
    (tested : (a : A) → Quiet (test_name a)) (named : (a : A) → Quiet (attr_name a))
    {c : XmlContext} {name : QName} {rest : List StackEl} where
  Holds-fill :
      (n : Object) (attrs : List A) (s : State)
      → AtTop c name rest s
      → Holds (λ _. AtTop (remember c) name rest) (fill z test_name attr_name value n attrs s)
  unfolding fill remember_context
  Holds-fill n attrs s h =
      Holds-Quiet-bind Q (set_attributes z test_name attr_name value n attrs) _ s
        (Quiet-set_attributes z test_name attr_name value tested named n attrs)
        λ _ t k. Holds-Quiet-bind Q last_links _ t Quiet-last_links λ links u l.
          Holds-Quiet-bind Q (set_links z n links) (λ _. remember_context) u
            (Quiet-set_links z n links)
            λ _ v m.
              let r = AtTop-Same h (Same-trans k (Same-trans l m)) in
              record {
                el = r.el;
                stack = r.stack;
                named = r.named;
                context = ap remember r.context;
              }
    where
      Q : Unit {0} → State → Type 0
      Q _ = AtTop (remember c) name rest

  -- The object `n` is at hand.
  Holds-append_new :
      (o : Object) (x : QName) (attrs : List A) (n : Object) (s : State)
      → AtTop c name rest s
      → Holds (λ _. OpenIn c name rest) (append_new z test_name attr_name value o x attrs n s)
  Holds-append_new o x attrs n s h =
      Holds-Quiet-bind (λ _. OpenIn c name rest) (on_heap (create_contents n)) _ s
        (Quiet-on_heap (create_contents n))
        λ n' t k.
          Holds-bind (λ _. AtTop (remember c) name rest) (λ _. OpenIn c name rest)
            (fill z test_name attr_name value n' attrs) _ t (Holds-fill n' attrs t (AtTop-Same h k))
            λ _ u l.
              Holds-Quiet-bind (λ _. OpenIn c name rest)
                (on_heap (append_elem o.contents x n'.contents))
                (λ _. push (record { obj = n'; name = x })) u
                (Quiet-on_heap (append_elem o.contents x n'.contents))
                λ _ v m. push_over c name rest (record { obj = n'; name = x }) v (AtTop-Same l m)

  -- Where the opening of an element returns, its object stands over the one at the top, and the
  -- position in the namespaces is remembered.
  pub Holds-open_element :
      (x : QName) (attrs : List A) (s : State)
      → AtTop c name rest s
      → Holds (λ _. OpenIn c name rest) (open_element z test_name attr_name value x attrs s)
  unfolding open_element
  Holds-open_element x attrs s h =
      Holds-bind (λ _. AtTop c name rest) (λ _. OpenIn c name rest) (begin z x) _ s
        (Holds-begin z x s h)
        λ r s1 h1. Holds-Quiet-bind Q top _ s1 Quiet-top λ o s2 k2.
          Holds-Quiet-bind Q (on_heap (create_contents o)) _ s2 (Quiet-on_heap (create_contents o))
            λ o' s3 k3.
              Holds-Quiet-bind Q (or_sub_object z o' r.1 r.0) _ (set_top o' s3).1
                (Quiet-or_sub_object z o' r.1 r.0)
                λ sub s4 k4.
                  Holds-Quiet-bind Q (retype z test_name attr_name value attrs sub) _ s4
                    (Quiet-retype z test_name attr_name value tested named attrs sub)
                    λ typed s5 k5.
                      Holds-Quiet-bind Q (not_null typed)
                        (append_new z test_name attr_name value o' r.1 attrs) s5
                        (Quiet-not_null typed)
                        λ n s6 k6. Holds-append_new o' r.1 attrs n s6 (
                          AtTop-Same (AtTop-set_top o' s3 (AtTop-Same h1 (Same-trans k2 k3)))
                            (Same-trans k4 (Same-trans k5 k6)))
    where
      Q : Unit {0} → State → Type 0
      Q _ = OpenIn c name rest

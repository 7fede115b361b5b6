-- ===== src/Parser/Ending.antt =====
-- The end of an element, `endElementNs` of src/xmlbeansxx/LibXMLParser.cpp: the namespaces are again
-- what they were before its start.
use xmlbeansxx.Prelude.{
  ℕ, ◌+◌, List, [], ◌∷◌, map, Option, some, ◌≡◌, refl, ◌∙◌, ap, sym, subst, Text, length, arith,
}
use xmlbeansxx.QName.{QName}
use xmlbeansxx.XmlContext.{XmlContext, remember, restore}
use xmlbeansxx.XmlContext.Scopes.{
  declare, declare_all, Back, Back-refl, Back-trans, Undoes, Undoes-zero, Undoes-remembered,
  Undoes-declare_all, Undoes-Back, restore-Undoes, declare_all_size,
}
use xmlbeansxx.Parser.{State, StackEl, and_then}
use xmlbeansxx.Parser.Elements.{end_element, top, restore_context, restored, pop, popped}
use xmlbeansxx.Parser.LibXml.{or_empty, add_namespaces, run}
use xmlbeansxx.Parser.Returns.{Holds, Holds-Quiet-bind}
use xmlbeansxx.Parser.Quiet.{Quiet-top}
use xmlbeansxx.Parser.Opening.{AtTop, AtTop-Same}

abbrev pub bindings : List (Option Text × Text) → List (Text × Text)
bindings ds = map (λ d. (or_empty d.0, d.1)) ds

pub add_namespaces-declare_all :
    (c : XmlContext) (ds : List (Option Text × Text))
    → add_namespaces c ds ≡ declare_all c (bindings ds)
unfolding add_namespaces declare_all
add_namespaces-declare_all c [] = refl
add_namespaces-declare_all c (d ∷ ds) =
    add_namespaces-declare_all (declare c (or_empty d.0, d.1)) ds

-- The namespaces are remembered as they are.
abbrev pub Placed : XmlContext → Type 0
Placed c = (r : List ℕ) × (c.remembered ≡ length c.restore_links ∷ r)

-- As before the element: the same element is open over the same others, and the namespaces lead
-- back to those of before.
abbrev pub Ends : XmlContext → QName → List StackEl → State → Type 0
Ends c name rest t =
    (c' : XmlContext) × Back c c' × (c'.remembered ≡ c.remembered) × AtTop c' name rest t

-- The namespaces when the children of an element have ended.
abbrev pub Inside : XmlContext → List (Text × Text) → XmlContext → Type 0
Inside c ds c2 =
    Back (remember (declare_all c ds)) c2
    × (c2.remembered ≡ (remember (declare_all c ds)).remembered)

pub restore-Inside :
    (c c2 : XmlContext) (ds : List (Text × Text))
    → Placed c
    → Inside c ds c2
    → (c' : XmlContext) × (restore c2 ≡ some c') × Back c c' × (c'.remembered ≡ c.remembered)
unfolding remember
restore-Inside c c2 ds (r, placed) (back, same) =
    let (c', run, back', e) =
      restore-Undoes (length ds) c c2 (length d.restore_links) r undone
        (ap (λ l. length l) back.links_are ∙ size.0)
        (same ∙ ap (λ l. length d.restore_links ∷ l) (size.1 ∙ placed)) in
    (c', run, back', e ∙ sym placed)
  where
    d : XmlContext
    d = declare_all c ds

    size :
        (length d.restore_links ≡ length ds + length c.restore_links)
        × (d.remembered ≡ c.remembered)
    size = declare_all_size c ds

    undone : Undoes (length ds) c c2
    undone =
        Undoes-Back (length ds) c (remember d) c2
          (Undoes-remembered (length ds) c d (length d.restore_links ∷ d.remembered)
            (Undoes-declare_all 0 (length ds) c c ds (omega arith) (Undoes-zero c c (Back-refl c))))
          back

-- The end of an element over the one named `name`.
pub Holds-end_element :
    (c c2 : XmlContext) (ds : List (Text × Text)) (name x : QName) (el : StackEl)
    (rest : List StackEl) (s : State)
    → Placed c
    → Inside c ds c2
    → el.name ≡ name
    → AtTop c2 x (el ∷ rest) s
    → Holds (λ _. Ends c name rest) (end_element s)
unfolding end_element restore_context pop
Holds-end_element c c2 ds name x el rest s placed inside named h =
    Holds-Quiet-bind Q top _ s Quiet-top λ o t k.
      let (c', e, back, same) = restore-Inside c c2 ds placed inside in
      let h' = AtTop-Same h k in
      subst (λ r. Holds Q (and_then (restored r t) λ _. pop)) (sym (ap restore h'.context ∙ e))
        (subst (λ l. Holds Q (popped l record t { xml_context = c' })) (sym h'.stack)
          (c', back, same, record { el = el; stack = refl; named = named; context = refl }))
  where
    Q : Unit {0} → State → Type 0
    Q _ = Ends c name rest

pub Placed-Back :
    (c c' : XmlContext) → Placed c → Back c c' → c'.remembered ≡ c.remembered → Placed c'
Placed-Back c c' (r, placed) back same =
    (r, same ∙ placed ∙ ap (λ l. length l ∷ r) (sym back.links_are))

pub Ends-Back :
    (c c' : XmlContext) (name : QName) (rest : List StackEl) (t : State)
    → Back c c'
    → c'.remembered ≡ c.remembered
    → Ends c' name rest t
    → Ends c name rest t
Ends-Back c c' name rest t back same (c2, back2, same2, at) =
    (c2, Back-trans c c' c2 back back2, same2 ∙ same, at)

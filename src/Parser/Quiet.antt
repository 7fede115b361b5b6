-- ===== src/Parser/Quiet.antt =====
-- The steps of the opening of an element that touch neither the stack of open elements nor the
-- namespaces: `startElementNs` of src/xmlbeansxx/LibXMLParser.cpp, `startElement` of
-- XercesParser.cpp.
use xmlbeansxx.Prelude.{ℕ, List, [], ◌∷◌, Option, none, some, false, ◌||◌, Text}
use xmlbeansxx.QName.{QName, qname, qname_eq}
use xmlbeansxx.Dict.{ElemDict}
use xmlbeansxx.Heap.{M, deref, load, alloc, plain_node}
use xmlbeansxx.Schema.{create_by_name, create_sub_object}
use xmlbeansxx.Output.{xsi_type}
use xmlbeansxx.Walker.{set_attr_text}
use xmlbeansxx.Parser.{
  Object, StackEl, Setting, P, return, on_heap, ns_split, is_persist_prefix, made_contents,
  get_schema_type,
}
use xmlbeansxx.Parser.Elements.{
  xsi_array, xmlns, top, top_of, predefined, predefined_by, new_object, or_sub_object, not_null,
  typed_by, retype, set_one, set_attributes, set_link, set_links,
}
use xmlbeansxx.Parser.Returns.{
  Same, Same-refl, Quiet, Quiet-on_heap, Quiet-if, Quiet-bind, Quiet-ns_split,
}

pub Quiet-top : Quiet top
Quiet-top s = by_stack s.nodes_stack
  where
    by_stack : (l : List StackEl) → Same s (top_of l s).1
    by_stack [] = Same-refl s
    by_stack (e ∷ stack) = Same-refl s

pub Quiet-not_null : (o : Option Object) → Quiet (not_null o)
Quiet-not_null none = Same-refl
Quiet-not_null (some n) = Same-refl

module _ (z : Setting) where
  pub Quiet-predefined_by : (name : QName) (st : ℕ) → Quiet (predefined_by z name st)
  Quiet-predefined_by name st =
      Quiet-bind {B = Option Object × QName} (on_heap (alloc (plain_node st)))
        (λ q. return (some (made_contents z.xml_object q), name))
        (Quiet-on_heap (alloc (plain_node st))) λ q. Same-refl

  pub Quiet-predefined : (name : QName) (e : ElemDict ℕ) → Quiet (predefined z name e)
  Quiet-predefined name [] = Same-refl
  Quiet-predefined name (it ∷ []) =
      Quiet-bind (on_heap (deref it.value)) _ (Quiet-on_heap (deref it.value)) λ p.
        Quiet-bind (on_heap (load p)) (λ n. predefined_by z it.name n.st) (Quiet-on_heap (load p))
          λ n. Quiet-predefined_by it.name n.st
  Quiet-predefined name (it ∷ it2 ∷ rest) = Same-refl

  pub Quiet-or_sub_object :
      (o : Object) (name : QName) (n : Option Object) → Quiet (or_sub_object z o name n)
  Quiet-or_sub_object o name (some n) = Same-refl
  Quiet-or_sub_object o name none =
      Quiet-bind (on_heap (get_schema_type o)) _ (Quiet-on_heap (get_schema_type o))
        λ st. Quiet-bind (on_heap (sub st)) _ (Quiet-on_heap (sub st)) λ t. Same-refl
    where
      sub : ℕ → M (Option ℕ)
      sub st = create_sub_object z.types z.type_system z.xml_object z.depth st name

  pub Quiet-typed_by : (name : QName) (v : Text) (n : Option Object) → Quiet (typed_by z name v n)
  unfolding typed_by
  Quiet-typed_by name v n =
      Quiet-if (qname_eq name xsi_type) _ _
        (Quiet-bind (ns_split v false) _ (Quiet-ns_split v false) λ t.
          Quiet-bind (not_null (new_object (create_by_name z.types z.type_system t))) _
            (Quiet-not_null (new_object (create_by_name z.types z.type_system t))) λ o. Same-refl)
        (Quiet-if (qname_eq name xsi_array) _ _
          (Quiet-bind (ns_split v false) _ (Quiet-ns_split v false)
            λ t. Quiet-bind (not_null n) _ (Quiet-not_null n) λ o. Same-refl)
          Same-refl)

  pub Quiet-set_one : (n : Object) (name : QName) (v : Text) → Quiet (set_one z n name v)
  Quiet-set_one n name v =
      Quiet-if (qname_eq name xsi_type || qname_eq name xsi_array) _ _ Same-refl
        (Quiet-on_heap (set_attr_text z.xml_string n.contents name v))

  pub Quiet-set_links : (n : Object) (links : List (Text × Text)) → Quiet (set_links z n links)
  unfolding set_links
  Quiet-set_links n [] = Same-refl
  Quiet-set_links n ((p, ns) ∷ links) =
      Quiet-bind (set_link z n p ns) (λ _. set_links z n links)
        (Quiet-if (is_persist_prefix p) _ _ Same-refl
          (Quiet-on_heap (set_attr_text z.xml_string n.contents (qname xmlns p) ns)))
        λ _. Quiet-set_links n links

  module _ {A : Type 0} (test_name attr_name : A → P QName) (value : A → Text)
      (tested : (a : A) → Quiet (test_name a)) (named : (a : A) → Quiet (attr_name a)) where
    pub Quiet-retype :
        (attrs : List A) (n : Option Object) → Quiet (retype z test_name attr_name value attrs n)
    unfolding retype
    Quiet-retype [] n = Same-refl
    Quiet-retype (a ∷ attrs) n = Quiet-bind (test_name a) _ (tested a) λ name.
        Quiet-bind (typed_by z name (value a) n) (retype z test_name attr_name value attrs)
          (Quiet-typed_by name (value a) n) λ n'. Quiet-retype attrs n'

    pub Quiet-set_attributes :
        (n : Object) (attrs : List A) → Quiet (set_attributes z test_name attr_name value n attrs)
    unfolding set_attributes
    Quiet-set_attributes n [] = Same-refl
    Quiet-set_attributes n (a ∷ attrs) = Quiet-bind (attr_name a) _ (named a) λ name.
        Quiet-bind (set_one z n name (value a))
          (λ _. set_attributes z test_name attr_name value n attrs) (Quiet-set_one n name (value a))
          λ _. Quiet-set_attributes n attrs

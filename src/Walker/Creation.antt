-- ===== src/Walker/Creation.antt =====
-- The element that `cgetElem` makes where there is none, by the schema of its parent.
use xmlbeansxx.Prelude.{ℕ, suc, ◌≡◌, ◌≢◌, refl, ap, ◌∙◌, none, some, true, ◌==◌, pos, ℤ, arith}
use xmlbeansxx.QName.{QName, qname_eq_refl}
use xmlbeansxx.Dict
use xmlbeansxx.Dict.Values.{find-set_at}
use xmlbeansxx.Heap.{Node, Heap, ok, plain, M, and_then, node_of, put_cell, return, ◌>>=◌, ◌>>◌}
use xmlbeansxx.Heap.Laws.{update_self, update_other}
use xmlbeansxx.Contents
use xmlbeansxx.Contents.Simple.{on_plain, set_elem-plain}
use xmlbeansxx.Schema.{
  SchemaType, SchemaProperty, TypeSystem, lookup, created, create_by_name, create_sub_object,
  sub_object_of, with_contents, create_sub_contents,
}
use xmlbeansxx.Walker.{get_elem, make_elem, or_make, cget_elem}

get_elem-plain :
    (p : ℕ) (x : QName) (index : ℤ) (h : Heap) (n : Node)
    → h.cell p ≡ some n
    → n.kind ≡ plain
    → Contents.get_elem p x index h ≡ (ok (Dict.find n.elems x index).value, h)
unfolding Contents.get_elem
get_elem-plain p x index h n at is_plain =
    on_plain p h n (λ m value. return none) (λ m. return (Dict.find m.elems x index).value) at
      is_plain

-- With the element `q` put in.
abbrev with_elem : Node → QName → ℕ → ℕ → Node
with_elem n x i q = record n { elems = Dict.set_at n.elems x (pos i) (some q) }

find-with_elem :
    (n : Node) (x : QName) (i q : ℕ)
    → (Dict.find (with_elem n x i q).elems x (pos i)).value ≡ some q
find-with_elem n x i q = find-set_at n.elems x x i i (some q) ∙ rw (qname_eq_refl x, same i) refl
  where
    same : (i : ℕ) → (i == i) ≡ true
    same i = ground arith

cget_elem-found :
    (create : ℕ → QName → M ℕ) (p : ℕ) (x : QName) (i q : ℕ) (h : Heap) (n : Node)
    → h.cell p ≡ some n
    → n.kind ≡ plain
    → (Dict.find n.elems x (pos i)).value ≡ some q
    → cget_elem create (some p) x (pos i) h ≡ (ok q, h)
unfolding cget_elem
cget_elem-found create p x i q h n at is_plain found =
    ap (λ r. and_then r (or_make (make_elem create p x (pos i))))
      (get_elem-plain p x (pos i) h n at is_plain ∙ ap (λ v. (ok v, h)) found)

cget_elem-made :
    (create : ℕ → QName → M ℕ) (p : ℕ) (x : QName) (i q : ℕ) (h h' : Heap) (n : Node)
    → h.cell p ≡ some n
    → n.kind ≡ plain
    → (Dict.find n.elems x (pos i)).value ≡ none
    → create n.st x h ≡ (ok q, h')
    → h'.cell p ≡ some n
    → cget_elem create (some p) x (pos i) h ≡ (ok q, put_cell h' p (with_elem n x i q))
unfolding cget_elem
cget_elem-made create p x i q h h' n at is_plain absent made at' =
    ap (λ r. and_then r (or_make (make_elem create p x (pos i))))
      (get_elem-plain p x (pos i) h n at is_plain ∙ ap (λ v. (ok v, h)) absent)
    ∙ ap (λ o. and_then (node_of o h) (λ n. create n.st x >>= put_in)) at
    ∙ ap (λ r. and_then r put_in) made
    ∙ ap (λ r. and_then r (λ _. return q)) (set_elem-plain p x (some q) (pos i) h' n at' is_plain)
  where
    put_in : ℕ → M ℕ
    put_in q = Contents.set_elem p x (some q) (pos i) >> return q

-- The schema of a type says that its element `x` has a type of which the creator makes objects
-- of type `t`.
pub record Declares (types : ℕ → SchemaType) (ts : TypeSystem) (st : ℕ) (x : QName) (t : ℕ)
    : Type 0 where
  pub property : SchemaProperty
  pub element : lookup (types st).elements x ≡ some property
  pub type : ℕ
  pub registered : lookup ts.type_creators property.schema_type_name ≡ some type
  pub creator : (types type).create_fn ≡ some t

create_sub_contents-Declares :
    (types : ℕ → SchemaType) (ts : TypeSystem) (xml_object depth : ℕ) (create_contents : ℕ → M ℕ)
    (st t : ℕ) (x : QName) (h : Heap)
    → Declares types ts st x t
    → create_sub_contents types ts xml_object (suc depth) create_contents st x h
      ≡ create_contents t h
unfolding create_sub_contents create_sub_object create_by_name
create_sub_contents-Declares types ts xml_object depth create_contents st t x h d =
    ap
      (λ o.
        and_then
          (sub_object_of types ts xml_object (create_sub_object types ts xml_object depth) x o h)
          (with_contents create_contents))
      d.element
    ∙ ap (λ o. with_contents create_contents o h) (ap (created types) d.registered ∙ d.creator)

-- The contents that are made for a new object: at an address of their own, of the object's type.
pub record NewContents (create_contents : ℕ → M ℕ) (t p : ℕ) (n : Node) (h : Heap) : Type 0 where
  pub q : ℕ
  pub after : Heap
  pub node : Node
  pub run : create_contents t h ≡ (ok q, after)
  pub parent_at : after.cell p ≡ some n
  pub node_at : after.cell q ≡ some node
  pub apart : p ≢ q
  pub typed : node.st ≡ t

-- The element of the type `t` was made once.
abbrev pub MadeOnce : (ℕ → QName → M ℕ) → ℕ → QName → ℕ → ℕ → Heap → Type 0
MadeOnce create p x i t h =
    (q : ℕ) × (h' : Heap) × (m : Node) × (cget_elem create (some p) x (pos i) h ≡ (ok q, h'))
    × (get_elem (some p) x (pos i) h' ≡ (ok (some q), h'))
    × (cget_elem create (some p) x (pos i) h' ≡ (ok q, h'))
    × (h'.cell q ≡ some m)
    × (m.st ≡ t)

-- Where an element has no child at a name and an index, and its schema declares a registered type
-- for the name whose creator makes objects of a type, cgetElem returns new contents of that type,
-- getElem then finds them there, and a second cgetElem returns the same and changes nothing; new
-- contents stand at an address of their own.
pub cget_elem-MadeOnce :
    (types : ℕ → SchemaType) (ts : TypeSystem) (xml_object depth : ℕ) (create_contents : ℕ → M ℕ)
    (p : ℕ) (x : QName) (i t : ℕ) (h : Heap) (n : Node)
    → h.cell p ≡ some n
    → n.kind ≡ plain
    → (Dict.find n.elems x (pos i)).value ≡ none
    → Declares types ts n.st x t
    → NewContents create_contents t p n h
    → MadeOnce (create_sub_contents types ts xml_object (suc depth) create_contents) p x i t h
unfolding get_elem
cget_elem-MadeOnce types ts xml_object depth create_contents p x i t h n at is_plain absent d new =
    (
      new.q,
      h',
      new.node,
      cget_elem-made create p x i new.q h new.after n at is_plain absent
          (create_sub_contents-Declares types ts xml_object depth create_contents n.st t x h d
            ∙ new.run)
          new.parent_at,
      get_elem-plain p x (pos i) h' child at' is_plain
          ∙ ap (λ v. (ok v, h')) (find-with_elem n x i new.q),
      cget_elem-found create p x i new.q h' child at' is_plain (find-with_elem n x i new.q),
      update_other new.after.cell p child new.q new.apart ∙ new.node_at,
      new.typed,
    )
  where
    create : ℕ → QName → M ℕ
    create = create_sub_contents types ts xml_object (suc depth) create_contents

    child : Node
    child = with_elem n x i new.q

    h' : Heap
    h' = put_cell new.after p child

    at' : h'.cell p ≡ some child
    at' = update_self new.after.cell p child

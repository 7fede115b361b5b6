-- ===== src/Arrays/Items.antt =====
-- The items of an XmlArray: src/xmlbeansxx/XmlArray.h.
use xmlbeansxx.Prelude.{
  ℕ, ◌+◌, ◌≡◌, ◌≢◌, refl, ap, sym, ◌∙◌, List, [], ◌∷◌, ◌++◌, map, Option, none, some, length, pos,
  length-append, get_or-append, get_or,
}
use xmlbeansxx.QName.{qname_eq_refl}
use xmlbeansxx.Dict
use xmlbeansxx.Dict.Values.{values, count-values, find-values}
use xmlbeansxx.Heap.{
  Node, Heap, Return, ok, fault, plain, ◌>>◌, return, plain_node, put_cell, and_then, alloc,
}
use xmlbeansxx.Heap.Laws.{update_self, update_other}
use xmlbeansxx.Contents
use xmlbeansxx.Contents.{elem_array}
use xmlbeansxx.Contents.Simple.{on_plain, elem_array-values}
use xmlbeansxx.Walker.{append_elem, append_all, get_elem_array, count_elems, get_elem}
use xmlbeansxx.Walker.Arrays.{
  longer, values-longer, append_elem-plain, Appended-append_all, append_all_other,
}
use xmlbeansxx.Arrays.{
  element_name, append, size, get_array, get_array_at, append_casts, new_instance,
  xmlarray_java_cast,
}
use xmlbeansxx.Arrays.Shared.{vector_conv, vector_conv-map}

-- The items of an array, as pointers.
abbrev pub items : Node → List (Option ℕ)
items n = values n.elems element_name

pub get_array-plain :
    (item : Option ℕ → Option ℕ) (p : ℕ) (h : Heap) (n : Node)
    → h.cell p ≡ some n
    → n.kind ≡ plain
    → get_array item (some p) h ≡ (ok (map item (items n)), h)
unfolding get_array get_elem_array Contents.get_elem_array
get_array-plain item p h n at is_plain =
    ap (λ (r : Return (List (Option ℕ)) × Heap). and_then r (λ a. return (vector_conv none item a)))
      (on_plain p h n (λ m value. return []) (λ m. return (elem_array m.elems element_name)) at
        is_plain)
    ∙ ap (λ l. (ok l, h))
        (vector_conv-map item none (elem_array n.elems element_name)
          ∙ ap (map item) (elem_array-values n.elems element_name))

pub size-plain :
    (p : ℕ) (h : Heap) (n : Node)
    → h.cell p ≡ some n
    → n.kind ≡ plain
    → size (some p) h ≡ (ok (length (items n)), h)
unfolding size count_elems Contents.count_elems
size-plain p h n at is_plain =
    on_plain p h n (λ m value. return 0) (λ m. return (Dict.count m.elems element_name)) at is_plain
    ∙ ap (λ k. (ok k, h)) (count-values n.elems element_name)

get_array_at-plain :
    (i p : ℕ) (h : Heap) (n : Node)
    → h.cell p ≡ some n
    → n.kind ≡ plain
    → get_array_at (some p) (pos i) h ≡ (ok (Dict.find n.elems element_name (pos i)).value, h)
unfolding get_array_at get_elem Contents.get_elem
get_array_at-plain i p h n at is_plain =
    on_plain p h n (λ m value. return none)
      (λ m. return (Dict.find m.elems element_name (pos i)).value) at is_plain

items-longer : (n : Node) (v : Option ℕ) → items (longer n element_name v) ≡ items n ++ v ∷ []
items-longer n v =
    values-longer n element_name element_name v ∙ rw (qname_eq_refl element_name) refl

map-snoc :
    (f : Option ℕ → Option ℕ) (l : List (Option ℕ)) (v : Option ℕ)
    → map f (l ++ v ∷ []) ≡ map f l ++ f v ∷ []
map-snoc f [] v = refl
map-snoc f (x ∷ l) v = ap (λ k. f x ∷ k) (map-snoc f l v)

-- An item was put behind the others.
abbrev pub ItemAppended : (Option ℕ → Option ℕ) → ℕ → Option ℕ → Node → Heap → Type 0
ItemAppended item p v n h =
    (h' : Heap) × (append (some p) v h ≡ (ok tt, h'))
    × (size (some p) h' ≡ (ok (length (items n) + 1), h'))
    × (get_array_at (some p) (pos (length (items n))) h' ≡ (ok v, h'))
    × (get_array item (some p) h' ≡ (ok (map item (items n) ++ item v ∷ []), h'))

-- `append` on an array that has contents returns. The array is then one item longer, `getArray` at
-- its old size gives the item that was appended, and `getArray` of the whole gives the old items
-- in their order with the new one behind them, each as the class of the items makes it.
pub append-ItemAppended :
    (item : Option ℕ → Option ℕ) (p : ℕ) (v : Option ℕ) (h : Heap) (n : Node)
    → h.cell p ≡ some n
    → n.kind ≡ plain
    → ItemAppended item p v n h
unfolding append
append-ItemAppended item p v h n at is_plain = (
  h',
  append_elem-plain p element_name v h n at is_plain,
  size-plain p h' n' at' is_plain
      ∙ ap (λ k. (ok k, h'))
          (ap (λ l. length l) (items-longer n v) ∙ length-append (items n) (v ∷ [])),
  get_array_at-plain (length (items n)) p h' n' at' is_plain
      ∙ ap (λ k. (ok k, h'))
          (find-values n'.elems element_name (length (items n))
            ∙ ap (λ l. get_or l (length (items n)) none) (items-longer n v)
            ∙ get_or-append (items n) v [] none),
  get_array-plain item p h' n' at' is_plain
      ∙ ap (λ l. (ok l, h')) (ap (map item) (items-longer n v) ∙ map-snoc item (items n) v),
)
  where
    n' : Node
    n' = longer n element_name v

    h' : Heap
    h' = put_cell h p n'

    at' : h'.cell p ≡ some n'
    at' = update_self h.cell p n'

-- Casts that do not throw.
append_casts-append_all :
    (cast : Option ℕ → Option ℕ) (obj : Option ℕ) (l : List (Option ℕ)) (h : Heap)
    → append_casts (λ a. return (cast a)) obj l h ≡ append_all obj element_name (map cast l) h
unfolding append_casts append_all append
append_casts-append_all cast obj [] h = refl
append_casts-append_all cast obj (a ∷ l) h =
    by_result (append_elem obj element_name (cast a) h)
      (λ h'. append_casts-append_all cast obj l h')
  where
    by_result :
        (r : Return (Unit {0}) × Heap)
        → ((h' : Heap)
            → append_casts (λ a. return (cast a)) obj l h'
              ≡ append_all obj element_name (map cast l) h')
        → and_then r (λ _. append_casts (λ a. return (cast a)) obj l)
          ≡ and_then r (λ _. append_all obj element_name (map cast l))
    by_result (ok u, h') k = k h'
    by_result (fault e, h') k = refl

-- A second array has the items of the first, cast, and the first is as it was.
abbrev pub Copied :
    (Option ℕ → Option ℕ)
    → (Option ℕ → Option ℕ)
    → (Option ℕ → Option ℕ)
    → ℕ
    → ℕ
    → Node
    → Heap
    → Type 0
Copied item item2 cast own p n h =
    (q : ℕ) × (h' : Heap) × (xmlarray_java_cast item (λ a. return (cast a)) own (some p) h
      ≡ (ok (some q), h'))
    × (get_array item2 (some q) h' ≡ (ok (map item2 (map cast (map item (items n)))), h'))
    × (get_array item (some p) h' ≡ (ok (map item (items n)), h'))
    × (q ≢ p)

-- `xmlarray_java_cast` of an array that has contents, by a cast that throws for none of its items,
-- returns a new array: `getArray` gives of it the items of the old one, cast, in their order, and
-- gives of the old one what it gave before. Nothing stands at the address of a new object.
pub xmlarray_java_cast-Copied :
    (item item2 cast : Option ℕ → Option ℕ) (own p : ℕ) (h : Heap) (n : Node)
    → h.cell h.next ≡ none
    → h.cell p ≡ some n
    → n.kind ≡ plain
    → Copied item item2 cast own p n h
unfolding xmlarray_java_cast new_instance values
xmlarray_java_cast-Copied item item2 cast own p h n new at is_plain =
    let (h', n', run, at', is_plain', attrs, elems) =
      Appended-append_all element_name l h.next (plain_node own) h1
        (update_self h.cell h.next (plain_node own)) refl in
    (
      h.next,
      h',
      ap
            (λ (r : Return (List (Option ℕ)) × Heap).
              and_then r
                (λ a. append_casts (λ a. return (cast a)) (some h.next) a >> return (some h.next)))
            (get_array-plain item p h1 n at1 is_plain)
          ∙ ap (λ (r : Return (Unit {0}) × Heap). and_then r (λ _. return (some h.next)))
              (append_casts-append_all cast (some h.next) (map item (items n)) h1 ∙ run),
      get_array-plain item2 h.next h' n' at' is_plain'
          ∙ ap (λ k. (ok (map item2 k), h'))
              (elems element_name ∙ rw (qname_eq_refl element_name) refl),
      get_array-plain item p h' n
          (ap (λ (r : Return (Unit {0}) × Heap). r.1.cell p) (sym run)
            ∙ append_all_other element_name l h.next p (plain_node own) h1
                (update_self h.cell h.next (plain_node own)) refl apart
            ∙ at1)
          is_plain,
      apart,
    )
  where
    l : List (Option ℕ)
    l = map cast (map item (items n))

    h1 : Heap
    h1 = (alloc (plain_node own) h).1

    apart : h.next ≢ p
    apart e = cc (ap h.cell e, new, at)

    at1 : h1.cell p ≡ some n
    at1 = update_other h.cell h.next (plain_node own) p apart ∙ at

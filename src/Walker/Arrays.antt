-- ===== src/Walker/Arrays.antt =====
-- The elements of one name as an array, and the element that `cgetElem` makes.
use xmlbeansxx.Prelude.{
  ℕ, ◌≡◌, ◌≢◌, refl, ap, sym, ◌∙◌, List, [], ◌∷◌, ◌++◌, append-nil, append_assoc, Option, some,
  Bool, true, false, if◌then◌else◌, Bool-cases, inl, inr, length, pos,
}
use xmlbeansxx.QName.{QName, qname_eq, qname_eq_refl}
use xmlbeansxx.Dict
use xmlbeansxx.Dict.{ElemDict}
use xmlbeansxx.Dict.Values.{values, count-values, values-qname_eq, set_padded, values-set_at}
use xmlbeansxx.Dict.Delete.{values-del}
use xmlbeansxx.Heap.{Node, Heap, Return, ok, plain, return, put_cell, and_then}
use xmlbeansxx.Heap.Laws.{update_self, update_other}
use xmlbeansxx.Contents
use xmlbeansxx.Contents.{elem_array}
use xmlbeansxx.Contents.Simple.{on_plain, elem_array-values, remove_elems-plain, set_elem-plain}
use xmlbeansxx.Walker.{
  count_elems, remove_elems, append_elem, append_all, set_elem_array, get_elem_array,
}

set_padded_end : (xs : List (Option ℕ)) (v : Option ℕ) → set_padded xs (length xs) v ≡ xs ++ v ∷ []
set_padded_end [] v = refl
set_padded_end (x ∷ xs) v = ap (λ l. x ∷ l) (set_padded_end xs v)

-- The node with an element put behind the others of its name.
abbrev pub longer : Node → QName → Option ℕ → Node
longer n name y = record n { elems = Dict.set_at n.elems name (pos (Dict.count n.elems name)) y }

pub values-longer :
    (n : Node) (name w : QName) (y : Option ℕ)
    → values (longer n name y).elems w
      ≡ (if qname_eq name w then values n.elems w ++ y ∷ [] else values n.elems w)
values-longer n name w y =
    values-set_at n.elems name w (Dict.count n.elems name) y
    ∙ (elim (Bool-cases (qname_eq name w)) [
      | inl same ↦
          rw (same, count-values n.elems name, values-qname_eq n.elems name w same)
            (set_padded_end (values n.elems w) y)
      | inr other ↦ rw other refl
    ])

pub append_elem-plain :
    (p : ℕ) (name : QName) (y : Option ℕ) (h : Heap) (n : Node)
    → h.cell p ≡ some n
    → n.kind ≡ plain
    → append_elem (some p) name y h ≡ (ok tt, put_cell h p (longer n name y))
unfolding append_elem count_elems Contents.count_elems
append_elem-plain p name y h n at is_plain =
    ap (λ r. and_then r (λ k. Contents.set_elem p name y (pos k)))
      (on_plain p h n (λ m value. return 0) (λ m. return (Dict.count m.elems name)) at is_plain)
    ∙ set_elem-plain p name y (pos (Dict.count n.elems name)) h n at is_plain

-- What a loop of appendElem leaves of a node.
abbrev pub Appended : QName → List (Option ℕ) → ℕ → Node → Heap → Type 0
Appended name v p n h =
    (h' : Heap) × (n' : Node) × (append_all (some p) name v h ≡ (ok tt, h'))
    × (h'.cell p ≡ some n')
    × (n'.kind ≡ plain)
    × (n'.attrs ≡ n.attrs)
    × ((w : QName)
        → values n'.elems w ≡ (if qname_eq name w then values n.elems w ++ v else values n.elems w))

pub Appended-append_all :
    (name : QName) (v : List (Option ℕ)) (p : ℕ) (n : Node) (h : Heap)
    → h.cell p ≡ some n
    → n.kind ≡ plain
    → Appended name v p n h
unfolding append_all
Appended-append_all name [] p n h at is_plain =
    (h, n, refl, at, is_plain, refl, λ w. nothing (qname_eq name w) (values n.elems w))
  where
    nothing : (b : Bool) (l : List (Option ℕ)) → l ≡ (if b then l ++ [] else l)
    nothing true l = sym (append-nil l)
    nothing false l = refl
Appended-append_all name (y ∷ v) p n h at is_plain =
    let (h', n', run, at', is_plain', attrs, elems) =
      Appended-append_all name v p (longer n name y) (put_cell h p (longer n name y))
        (update_self h.cell p (longer n name y)) is_plain in
    (
      h',
      n',
      ap (λ r. and_then r (λ _. append_all (some p) name v))
            (append_elem-plain p name y h n at is_plain)
          ∙ run,
      at',
      is_plain',
      attrs,
      λ w.
          elems w
          ∙ ap (λ l. if qname_eq name w then l ++ v else l) (values-longer n name w y)
          ∙ joined (qname_eq name w) (values n.elems w),
    )
  where
    joined :
        (b : Bool) (l : List (Option ℕ))
        → (if b then (if b then l ++ y ∷ [] else l) ++ v else (if b then l ++ y ∷ [] else l))
          ≡ (if b then l ++ y ∷ v else l)
    joined true l = append_assoc l (y ∷ []) v
    joined false l = refl

-- Only the object appended to is written.
pub append_all_other :
    (name : QName) (v : List (Option ℕ)) (p r : ℕ) (n : Node) (h : Heap)
    → h.cell p ≡ some n
    → n.kind ≡ plain
    → p ≢ r
    → (append_all (some p) name v h).1.cell r ≡ h.cell r
unfolding append_all
append_all_other name [] p r n h at is_plain apart = refl
append_all_other name (y ∷ v) p r n h at is_plain apart =
    ap (λ (w : Return (Unit {0}) × Heap). (and_then w (λ _. append_all (some p) name v)).1.cell r)
      (append_elem-plain p name y h n at is_plain)
    ∙ append_all_other name v p r (longer n name y) (put_cell h p (longer n name y))
        (update_self h.cell p (longer n name y)) is_plain apart
    ∙ update_other h.cell p (longer n name y) r apart

-- The array of a name is `v`, and all else in the node is as it was.
abbrev pub ArraySet : QName → List (Option ℕ) → ℕ → Node → Heap → Type 0
ArraySet name v p n h =
    (h' : Heap) × (n' : Node) × (set_elem_array (some p) name v h ≡ (ok tt, h'))
    × (get_elem_array (some p) name h' ≡ (ok v, h'))
    × (h'.cell p ≡ some n')
    × (n'.attrs ≡ n.attrs)
    × ((w : QName) → qname_eq name w ≡ false → values n'.elems w ≡ values n.elems w)

-- On the contents of an element setElemArray returns, getElemArray then gives the pointers that
-- were set, in their order and the null pointers among them, and the attributes and the elements
-- of all other names are as before.
pub get_elem_array-set_elem_array :
    (p : ℕ) (name : QName) (v : List (Option ℕ)) (h : Heap) (n : Node)
    → h.cell p ≡ some n
    → n.kind ≡ plain
    → ArraySet name v p n h
unfolding set_elem_array get_elem_array remove_elems Contents.get_elem_array
get_elem_array-set_elem_array p name v h n at is_plain =
    let (h', n', run, at', is_plain', attrs, elems) =
      Appended-append_all name v p without (put_cell h p without) (update_self h.cell p without)
        is_plain in
    (
      h',
      n',
      ap (λ r. and_then r (λ _. append_all (some p) name v))
            (remove_elems-plain p name h n at is_plain)
          ∙ run,
      on_plain p h' n' (λ m value. return []) (λ m. return (elem_array m.elems name)) at' is_plain'
          ∙ ap (λ l. (ok l, h')) (elem_array-values n'.elems name ∙ elems name ∙ emptied),
      at',
      attrs,
      λ w other. elems w ∙ rw (other, values-del n.elems name w, other) refl,
    )
  where
    without : Node
    without = record n { elems = (Dict.del n.elems name).0 }

    emptied :
        (if qname_eq name name then values without.elems name ++ v else values without.elems name)
        ≡ v
    emptied = rw (qname_eq_refl name, values-del n.elems name name, qname_eq_refl name) refl

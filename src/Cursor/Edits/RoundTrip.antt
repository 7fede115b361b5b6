-- ===== src/Cursor/Edits/RoundTrip.antt =====
-- An element that is inserted at the cursor and removed again.
use xmlbeansxx.Prelude.{
  ℕ, zero, suc, ◌+◌, ◌-◌, ◌≤◌, ◌≡◌, refl, ap, sym, ◌∙◌, [], ◌∷◌, Option, some, true, false, ◌==◌,
  ltb, leb, length, get_or, pos, Bool-cases, inl, inr, arith,
}
use xmlbeansxx.QName.{QName}
use xmlbeansxx.Dict.{ElemDict, DictEl, dict_el, no_el}
use xmlbeansxx.Heap.{Node, Heap, ok, M, return, store, put_cell, update, ◌>>◌}
use xmlbeansxx.Heap.Laws.{update_self}
use xmlbeansxx.Cursor.{Cursor, count_all, el_at, checked_el, get_pos, lift}
use xmlbeansxx.Cursor.Moves.{load-at}
use xmlbeansxx.Cursor.Edits.{
  insert_at, erase_at, at_most, elem_index, insert_element, without, remove_in, remove_xml,
}

not_below_zero : (m : ℕ) → ¬ (suc m ≤ 0)
not_below_zero m h = omega arith

erase_at-insert_at :
    (k : ℕ) (el : DictEl ℕ) (l : ElemDict ℕ) → k ≤ length l → erase_at k (insert_at k el l) ≡ l
erase_at-insert_at zero el l h = refl
erase_at-insert_at (suc k) el [] h = absurd (not_below_zero k h)
erase_at-insert_at (suc k) el (x ∷ l) h = ap (λ l. x ∷ l) (erase_at-insert_at k el l (ground arith))

length-insert_at :
    (k : ℕ) (el : DictEl ℕ) (l : ElemDict ℕ)
    → k ≤ length l
    → length (insert_at k el l) ≡ suc (length l)
length-insert_at zero el l h = refl
length-insert_at (suc k) el [] h = absurd (not_below_zero k h)
length-insert_at (suc k) el (x ∷ l) h = ap suc (length-insert_at k el l (ground arith))

get_or-insert_at :
    (k : ℕ) (el : DictEl ℕ) (l : ElemDict ℕ) → k ≤ length l → get_or (insert_at k el l) k no_el ≡ el
get_or-insert_at zero el l h = refl
get_or-insert_at (suc k) el [] h = absurd (not_below_zero k h)
get_or-insert_at (suc k) el (x ∷ l) h = get_or-insert_at k el l (ground arith)

-- A node with an element put in.
abbrev grown : Node → ℕ → DictEl ℕ → Node
grown n k el = record n { elems = insert_at k el n.elems }

behind_attrs : (a k : ℕ) → ltb (a + k) a ≡ false
behind_attrs a k = ground arith

element_number : (a k : ℕ) → (a + k) - a ≡ k
element_number a k = omega arith

before_end : (a k b m : ℕ) → m ≡ suc b → k ≤ b → leb (a + m) (a + k) ≡ false
before_end a k b m e h = ground arith

elem_index-at :
    (n : Node) (k : ℕ) → k ≤ length n.elems → elem_index (pos (length n.attrs + k)) n ≡ k
elem_index-at n k h =
    ap (λ i. at_most i (length n.elems)) (element_number (length n.attrs) k) ∙ below
  where
    below : at_most k (length n.elems) ≡ k
    below = ground arith

without-grown :
    (n : Node) (k : ℕ) (el : DictEl ℕ)
    → k ≤ length n.elems
    → without (grown n k el) (length n.attrs + k) ≡ n
without-grown n k el h =
    rw (behind_attrs (length n.attrs) k, element_number (length n.attrs) k)
      (ap (λ l. record n { elems = l }) (erase_at-insert_at k el n.elems h))

el_at-grown :
    (n : Node) (k : ℕ) (el : DictEl ℕ)
    → k ≤ length n.elems
    → el_at (grown n k el) (length n.attrs + k) ≡ el
el_at-grown n k el h =
    rw (behind_attrs (length n.attrs) k, element_number (length n.attrs) k)
      (get_or-insert_at k el n.elems h)

inside-grown :
    (n : Node) (k : ℕ) (el : DictEl ℕ)
    → k ≤ length n.elems
    → leb (count_all (grown n k el)) (length n.attrs + k) ≡ false
inside-grown n k el h =
    before_end (length n.attrs) k (length n.elems) (length (insert_at k el n.elems))
      (length-insert_at k el n.elems h) h

checked_el-grown :
    (n : Node) (k : ℕ) (el : DictEl ℕ)
    → k ≤ length n.elems
    → checked_el (grown n k el) (pos (length n.attrs + k)) ≡ ok el
checked_el-grown n k el h = rw (inside-grown n k el h) (ap ok (el_at-grown n k el h))

equal : (p q : ℕ) → (p == q) ≡ true → p ≡ q
equal p q e = ground arith

-- What was written twice and last was there before.
put_back : (h : Heap) (p : ℕ) (n m : Node) → h.cell p ≡ some n → put_cell (put_cell h p m) p n ≡ h
unfolding update
put_back h p n m at = λ t. record h { cell = λ q. back q t }
  where
    back : (q : ℕ) → update (update h.cell p m) p n q ≡ h.cell q
    back q = elim (Bool-cases (p == q)) [
      | inl same ↦ rw same (sym at ∙ ap h.cell (equal p q same))
      | inr other ↦ rw other refl
    ]

-- With an element inserted the cursor stands at it, and its removal restores the document.
abbrev pub InsertedAndRemoved : Cursor → QName → Option ℕ → Heap → ℕ → Type 0
InsertedAndRemoved c name value h i =
    (h' : Heap) × (insert_element c name value h ≡ (ok i, h'))
    × (get_pos c h' ≡ (ok (dict_el name value), h'))
    × (remove_xml c h' ≡ (ok true, h))

-- At a cursor that stands at an element, a text or the end of a node, insertElement returns the
-- cursor's position, getPos then gives the new name and contents, and removeXml returns true and
-- leaves the document as it was before the insertion.
pub remove_xml-insert_element :
    (c : Cursor) (name : QName) (value : Option ℕ) (h : Heap) (n : Node) (k : ℕ)
    → h.cell c.contents ≡ some n
    → k ≤ length n.elems
    → c.position ≡ pos (length n.attrs + k)
    → InsertedAndRemoved c name value h (length n.attrs + k)
unfolding insert_element get_pos remove_xml
remove_xml-insert_element c name value h n k at inside position = (
  h',
  load-at c.contents h n (λ n. insert_in n) at ∙ inserted,
  load-at c.contents h' m (λ n. lift (checked_el n c.position)) at'
      ∙ ap (λ i. lift (checked_el m i) h') position
      ∙ ap (λ r. (r, h')) (checked_el-grown n k el inside),
  load-at c.contents h' m (λ n. remove_in c.contents c.position n) at'
      ∙ ap (λ i. remove_in c.contents i m h') position
      ∙ removed,
)
  where
    el : DictEl ℕ
    el = dict_el name value

    m : Node
    m = grown n k el

    h' : Heap
    h' = put_cell h c.contents m

    at' : h'.cell c.contents ≡ some m
    at' = update_self h.cell c.contents m

    insert_in : Node → M ℕ
    insert_in n = do
      let count = elem_index c.position n
      store c.contents record n { elems = insert_at count el n.elems }
      return (count + length n.attrs)

    inserted : insert_in n h ≡ (ok (length n.attrs + k), h')
    inserted =
        ap (λ j. (ok (j + length n.attrs), put_cell h c.contents (grown n j el)))
          (ap (λ i. elem_index i n) position ∙ elem_index-at n k inside)
        ∙ ap (λ i. (ok i, h')) (swap k (length n.attrs))
      where
        swap : (a b : ℕ) → a + b ≡ b + a
        swap a b = omega arith

    removed : remove_in c.contents (pos (length n.attrs + k)) m h' ≡ (ok true, h)
    removed = rw (inside-grown n k el inside) (
        ap (λ n. (ok true, put_cell h' c.contents n)) (without-grown n k el inside)
        ∙ ap (λ h. (ok true, h)) (put_back h c.contents n m at))

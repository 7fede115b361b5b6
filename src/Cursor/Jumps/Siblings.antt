-- ===== src/Cursor/Jumps/Siblings.antt =====
-- `toChild` and `toNextSibling` against the list of the positions that they count.
use xmlbeansxx.Prelude.{
  ℕ, zero, suc, ◌+◌, ◌-◌, ◌≤◌, ◌<◌, ◌≡◌, refl, ap, sym, ◌∙◌, List, [], ◌∷◌, Option, none, some,
  Bool, true, false, ◌&&◌, ltb, leb, if◌then◌else◌, length, get_elem?, ℤ, pos, Bool-cases, inl, inr,
  arith, dec, is_zero,
}
use mathlib.Core.Option.{none-ne-some, some-injective}
use xmlbeansxx.QName.{QName}
use xmlbeansxx.Dict.{ElemDict}
use xmlbeansxx.Heap.{Node, Heap, ok, return}
use xmlbeansxx.Cursor.{Cursor, count_all, at_pos}
use xmlbeansxx.Cursor.Moves.{load-at}
use xmlbeansxx.Cursor.Jumps.{scan, skip, jumped, child_by, sibling_by, sibling_in}

-- The positions of the elements that a test holds for, of which the first is at `i`.
unfoldable pub matches : (QName → Bool) → ElemDict ℕ → ℕ → List ℕ
matches test [] i = []
matches test (el ∷ rest) i =
    let later = matches test rest (i + 1) in if test el.name then i ∷ later else later

scan-hit :
    (b : Bool) (k i : ℕ) (rest : ℤ → Option ℕ) (later : List ℕ)
    → ((j : ℕ) → rest (pos (suc j)) ≡ get_elem? later j)
    → (let index' = if b then dec (pos (suc k)) else pos (suc k) in
        if b && is_zero index' then some i else rest index')
      ≡ get_elem? (if b then i ∷ later else later) k
scan-hit true zero i rest later ih = refl
scan-hit true (suc k) i rest later ih = ih k
scan-hit false k i rest later ih = ih k

scan-matches :
    (test : QName → Bool) (l : ElemDict ℕ) (k i : ℕ)
    → scan test l (pos (suc k)) i ≡ get_elem? (matches test l i) k
unfolding scan matches
scan-matches test [] k i = refl
scan-matches test (el ∷ l) k i =
    scan-hit (test el.name) k i (λ index. scan test l index (i + 1)) (matches test l (i + 1))
      (λ j. scan-matches test l j (i + 1))

-- What stands behind the match `i`, the one of number `k`.
abbrev Behind : (QName → Bool) → ElemDict ℕ → ℕ → ℕ → ℕ → Type 0
Behind test l a k i =
    (d : ℕ) × (i ≡ a + d)
    × (d < length l)
    × ((j : ℕ)
        → get_elem? (matches test (skip (suc d) l) (i + 1)) j
          ≡ get_elem? (matches test l a) (suc (k + j)))

Behind-hit :
    (b : Bool) (test : QName → Bool) (l : ElemDict ℕ) (a k i : ℕ)
    → ((j : ℕ) → get_elem? (matches test l (a + 1)) j ≡ some i → Behind test l (a + 1) j i)
    → get_elem? (if b then a ∷ matches test l (a + 1) else matches test l (a + 1)) k ≡ some i
    → (d : ℕ) × (i ≡ a + d)
      × (d < suc (length l))
      × ((j : ℕ)
          → get_elem? (matches test (skip d l) (i + 1)) j
            ≡ get_elem?
                (if b then a ∷ matches test l (a + 1) else matches test l (a + 1))
                (suc (k + j)))
Behind-hit true test l a zero i ih e = (
  0,
  sym (some-injective a i e) ∙ omega arith,
  omega arith,
  λ j.
      ap (λ i. get_elem? (matches test l (i + 1)) j) (sym (some-injective a i e))
      ∙ ap (get_elem? (matches test l (a + 1))) (later j),
)
  where
    later : (j : ℕ) → j ≡ 0 + j
    later j = omega arith
Behind-hit true test l a (suc k) i ih e =
    let (d, at, less, same) = ih k e in
    (
      suc d,
      shift a d i at,
      ground arith,
      λ j. same j ∙ ap (get_elem? (matches test l (a + 1))) (later k j),
    )
  where
    shift : (a d i : ℕ) → i ≡ (a + 1) + d → i ≡ a + suc d
    shift a d i e = omega arith

    later : (k j : ℕ) → suc (k + j) ≡ suc k + j
    later k j = omega arith
Behind-hit false test l a k i ih e =
    let (d, at, less, same) = ih k e in (suc d, shift a d i at, ground arith, same)
  where
    shift : (a d i : ℕ) → i ≡ (a + 1) + d → i ≡ a + suc d
    shift a d i e = omega arith

Behind-matches :
    (test : QName → Bool) (l : ElemDict ℕ) (a k i : ℕ)
    → get_elem? (matches test l a) k ≡ some i
    → Behind test l a k i
unfolding matches
Behind-matches test [] a k i e = absurd (none-ne-some i e)
Behind-matches test (el ∷ l) a k i e =
    Behind-hit (test el.name) test l a k i (λ j. Behind-matches test l (a + 1) j i) e

child_by-matches :
    (test : QName → Bool) (c : Cursor) (h : Heap) (n : Node) (k : ℕ)
    → h.cell c.contents ≡ some n
    → child_by test c (pos (suc k)) h
      ≡ (ok (jumped c (get_elem? (matches test n.elems (length n.attrs)) k)), h)
unfolding child_by
child_by-matches test c h n k at =
    load-at c.contents h n
      (λ n. return (jumped c (scan test n.elems (pos (suc k)) (length n.attrs)))) at
    ∙ ap (λ o. (ok (jumped c o), h)) (scan-matches test n.elems k (length n.attrs))

skip-all : (k : ℕ) (l : ElemDict ℕ) → length l ≤ k → skip k l ≡ []
skip-all zero [] h = refl
skip-all zero (el ∷ l) h = absurd (wrong (length l) h)
  where
    wrong : (m : ℕ) → ¬ (suc m ≤ 0)
    wrong m h = omega arith
skip-all (suc k) [] h = refl
skip-all (suc k) (el ∷ l) h = skip-all k l (ground arith)

-- Behind the last match of all there is none.
none-last :
    (test : QName → Bool) (l : ElemDict ℕ) (d i j : ℕ)
    → length l ≤ suc d
    → get_elem? (matches test (skip (suc d) l) (i + 1)) j ≡ none
unfolding matches
none-last test l d i j last =
    ap (λ l. get_elem? (matches test l (i + 1)) j) (skip-all (suc d) l last)

-- The last element has no sibling behind it, and the search of the others begins behind the
-- cursor.
sibling_in-matches :
    (test : QName → Bool) (c : Cursor) (n : Node) (k i j : ℕ)
    → get_elem? (matches test n.elems (length n.attrs)) k ≡ some i
    → sibling_in test (at_pos c (pos i)) (pos (suc j)) n
      ≡ jumped (at_pos c (pos i)) (get_elem? (matches test n.elems (length n.attrs)) (suc (k + j)))
sibling_in-matches test c n k i j e =
    let (d, at, less, same) = Behind-matches test n.elems (length n.attrs) k i e in
    elim (Bool-cases (leb (count_all n) (i + 1))) [
      | inl last ↦
          rw last (ap (jumped c') (sym (none-last test n.elems d i j (ground arith)) ∙ same j))
      | inr more ↦
          rw (more, not_before d at, behind d at)
            (ap (jumped c') (scan-matches test (skip (suc d) n.elems) j (i + 1) ∙ same j))
    ]
  where
    c' : Cursor
    c' = at_pos c (pos i)

    not_before : (d : ℕ) → i ≡ length n.attrs + d → ltb (i + 1) (length n.attrs) ≡ false
    not_before d at = ground arith

    behind : (d : ℕ) → i ≡ length n.attrs + d → (i + 1) - length n.attrs ≡ suc d
    behind d at = omega arith

sibling_by-matches :
    (test : QName → Bool) (c : Cursor) (h : Heap) (n : Node) (k i j : ℕ)
    → h.cell c.contents ≡ some n
    → get_elem? (matches test n.elems (length n.attrs)) k ≡ some i
    → sibling_by test (at_pos c (pos i)) (pos (suc j)) h ≡ (
      ok (
          jumped
            (at_pos c (pos i))
            (get_elem? (matches test n.elems (length n.attrs)) (suc (k + j)))),
      h,
    )
unfolding sibling_by
sibling_by-matches test c h n k i j at e =
    load-at c.contents h n (λ n. return (sibling_in test (at_pos c (pos i)) (pos (suc j)) n)) at
    ∙ ap (λ r. (ok r, h)) (sibling_in-matches test c n k i j e)

-- The children that a test counts, from the first on: toChild(k) goes to the k-th of them, and
-- toNextSibling(j) from there to the one j behind it. Each of the two leaves the cursor where it
-- is and returns false where there are fewer. The test is that of either overload, the indices
-- are positive, and neither changes the document.
pub child_by-sibling_by :
    (test : QName → Bool) (c : Cursor) (h : Heap) (n : Node) (k j : ℕ)
    → h.cell c.contents ≡ some n
    → (child_by test c (pos (suc k)) h
        ≡ (ok (jumped c (get_elem? (matches test n.elems (length n.attrs)) k)), h))
      × ((i : ℕ)
          → get_elem? (matches test n.elems (length n.attrs)) k ≡ some i
          → sibling_by test (at_pos c (pos i)) (pos (suc j)) h ≡ (
            ok (
                jumped
                  (at_pos c (pos i))
                  (get_elem? (matches test n.elems (length n.attrs)) (suc (k + j)))),
            h,
          ))
child_by-sibling_by test c h n k j at =
    (child_by-matches test c h n k at, λ i e. sibling_by-matches test c h n k i j at e)

-- ===== src/Cursor/Track.antt =====
-- A cursor that stays on the document: forward and back again.
use xmlbeansxx.Prelude.{
  ℕ, zero, suc, ◌+◌, ◌≤◌, ◌<◌, ◌≡◌, refl, ap, sym, subst, ◌∙◌, List, [], ◌∷◌, none, some,
  Option-cases, ℤ, pos, negsuc, inl, inr, ◌⊎◌, arith,
}
use xmlbeansxx.Heap.{Node, Heap, ok}
use xmlbeansxx.Cursor.{
  Cursor, count_all, token_at, is_empty, at_pos, arrive, remember_and_swap, to_parent,
  enter_or_pass, enter_last, to_next_token, to_prev_token, next_from, new_cursor,
}
use xmlbeansxx.Cursor.Moves.{
  value_at, load-at, arrive-at, to_next_token-inside, to_next_token-end, to_prev_token-inside,
}

-- The pointers of start-element tokens lead to nodes.
abbrev pub IsClosed : Heap → Type 0
IsClosed h =
    (p : ℕ) (n : Node) (i q : ℕ)
    → h.cell p ≡ some n
    → i < count_all n
    → value_at n i ≡ some q
    → (m : Node) × (h.cell q ≡ some m)

-- Each node on the stack has, at its position, the element whose node is the one above it.
abbrev pub Stacked : Heap → ℕ → List (ℤ × ℕ) → Type 0
Stacked h p [] = Unit {0}
Stacked h p ((negsuc i, q) ∷ st) = ⊥
Stacked h p ((pos i, q) ∷ st) =
    ((n : Node) × (h.cell q ≡ some n) × (i < count_all n) × (value_at n i ≡ some p))
    × Stacked h q st

-- A position in a node: before the document, at an attribute or element, or at the end.
abbrev pub Inside : Node → ℤ → List (ℤ × ℕ) → Type 0
Inside n (pos i) st = i ≤ count_all n
Inside n (negsuc zero) [] = Unit {0}
Inside n (negsuc zero) (f ∷ st) = ⊥
Inside n (negsuc (suc i)) st = ⊥

pub record OnTrack (h : Heap) (c : Cursor) : Type 0 where
  pub node : Node
  pub node_at : h.cell c.contents ≡ some node
  pub inside : Inside node c.position c.stack
  pub stacked : Stacked h c.contents c.stack

-- The end-document token.
abbrev pub AtEnddoc : Node → ℤ → List (ℤ × ℕ) → Type 0
AtEnddoc n i [] = i ≡ pos (count_all n)
AtEnddoc n i (f ∷ st) = ⊥

-- A move forward returns a cursor on the document with the token that stands there, and a move
-- back from it returns to where it came from.
abbrev pub ThereAndBack : Heap → Cursor → Node → Type 0
ThereAndBack h c n =
    (c' : Cursor) × (o : OnTrack h c') × (to_next_token c h
      ≡ (ok (token_at (is_empty c'.stack) o.node c'.position, c'), h))
    × (to_prev_token c' h ≡ (ok (token_at (is_empty c.stack) n c.position, c), h))

from_startdoc : (h : Heap) (p : ℕ) (n : Node) → h.cell p ≡ some n → ThereAndBack h (new_cursor p) n
unfolding to_next_token to_prev_token to_parent new_cursor
from_startdoc h p n at = (
  at_pos (new_cursor p) (pos 0),
  record { node = n; node_at = at; inside = omega arith; stacked = tt },
  load-at p h n (λ n. next_from (new_cursor p) n (negsuc 0)) at
      ∙ arrive-at (at_pos (new_cursor p) (pos 0)) h n at,
  arrive-at (new_cursor p) h n at,
)

-- Into the node of an element.
into :
    (h : Heap) (p i q : ℕ) (st : List (ℤ × ℕ)) (n m : Node)
    → h.cell p ≡ some n
    → i < count_all n
    → value_at n i ≡ some q
    → h.cell q ≡ some m
    → Stacked h p st
    → ThereAndBack h record { contents = p; position = pos i; stack = st } n
unfolding to_prev_token to_parent remember_and_swap
into h p i q st n m at less value at' stacked = (
  remember_and_swap c q,
  record {
    node = m;
    node_at = at';
    inside = omega arith;
    stacked = ((n, at, less, value), stacked);
  },
  to_next_token-inside c h n i at less
      ∙ ap (λ v. enter_or_pass c v h) value
      ∙ arrive-at (remember_and_swap c q) h m at',
  arrive-at c h n at,
)
  where
    c : Cursor
    c = record { contents = p; position = pos i; stack = st }

-- Past an attribute, a text, or an element without a node.
past :
    (h : Heap) (p i : ℕ) (st : List (ℤ × ℕ)) (n : Node)
    → h.cell p ≡ some n
    → i < count_all n
    → value_at n i ≡ none
    → Stacked h p st
    → ThereAndBack h record { contents = p; position = pos i; stack = st } n
past h p i st n at less value stacked = (
  at_pos c (pos (i + 1)),
  record { node = n; node_at = at; inside = omega arith; stacked = stacked },
  to_next_token-inside c h n i at less
      ∙ ap (λ v. enter_or_pass c v h) value
      ∙ arrive-at (at_pos c (pos (i + 1))) h n at,
  ap (λ k. to_prev_token (at_pos c (pos k)) h) (succ i)
      ∙ to_prev_token-inside c h n i at less
      ∙ ap (λ v. enter_last (at_pos c (pos i)) v h) value
      ∙ arrive-at c h n at,
)
  where
    c : Cursor
    c = record { contents = p; position = pos i; stack = st }

    succ : (i : ℕ) → i + 1 ≡ suc i
    succ i = omega arith

-- Out of a node, behind its element.
out :
    (h : Heap) (p k q : ℕ) (st : List (ℤ × ℕ)) (n m : Node)
    → h.cell p ≡ some n
    → h.cell q ≡ some m
    → k < count_all m
    → value_at m k ≡ some p
    → Stacked h q st
    → ThereAndBack h
        record { contents = p; position = pos (count_all n); stack = (pos k, q) ∷ st }
        n
unfolding to_parent remember_and_swap
out h p k q st n m at at' less value stacked = (
  up,
  record { node = m; node_at = at'; inside = omega arith; stacked = stacked },
  to_next_token-end c h n at ∙ arrive-at up h m at',
  ap (λ k. to_prev_token (at_pos up (pos k)) h) (succ k)
      ∙ to_prev_token-inside up h m k at' less
      ∙ ap (λ v. enter_last (at_pos up (pos k)) v h) value
      ∙ load-at p h n (λ n. arrive (at_pos c (pos (count_all n)))) at
      ∙ arrive-at c h n at,
)
  where
    c : Cursor
    c = record { contents = p; position = pos (count_all n); stack = (pos k, q) ∷ st }

    up : Cursor
    up = record { contents = q; position = pos (k + 1); stack = st }

    succ : (i : ℕ) → i + 1 ≡ suc i
    succ i = omega arith

from_item :
    (h : Heap) (p i : ℕ) (st : List (ℤ × ℕ)) (n : Node)
    → IsClosed h
    → h.cell p ≡ some n
    → i < count_all n
    → Stacked h p st
    → ThereAndBack h record { contents = p; position = pos i; stack = st } n
from_item h p i st n closed at less stacked = elim (Option-cases (value_at n i)) [
  | inl absent ↦ past h p i st n at less absent stacked
  | inr (q, value) ↦
      let (m, at') = closed p n i q at less value in into h p i q st n m at less value at' stacked
]

from_end :
    (h : Heap) (p : ℕ) (st : List (ℤ × ℕ)) (n : Node)
    → h.cell p ≡ some n
    → Stacked h p st
    → ¬ AtEnddoc n (pos (count_all n)) st
    → ThereAndBack h record { contents = p; position = pos (count_all n); stack = st } n
from_end h p [] n at stacked more = absurd (more refl)
from_end h p ((pos k, q) ∷ st) n at ((m, at', less, value), stacked) more =
    out h p k q st n m at at' less value stacked
from_end h p ((negsuc k, q) ∷ st) n at wrong more = elim wrong [ ]

from_position :
    (h : Heap) (p : ℕ) (i : ℤ) (st : List (ℤ × ℕ)) (n : Node)
    → IsClosed h
    → h.cell p ≡ some n
    → Inside n i st
    → Stacked h p st
    → ¬ AtEnddoc n i st
    → ThereAndBack h record { contents = p; position = i; stack = st } n
unfolding new_cursor
from_position h p (negsuc zero) [] n closed at inside stacked more = from_startdoc h p n at
from_position h p (negsuc zero) (f ∷ st) n closed at wrong stacked more = elim wrong [ ]
from_position h p (negsuc (suc i)) st n closed at wrong stacked more = elim wrong [ ]
from_position h p (pos i) st n closed at inside stacked more = elim below_or_at [
  | inl less ↦ from_item h p i st n closed at less stacked
  | inr e ↦
      subst (λ k. ThereAndBack h record { contents = p; position = pos k; stack = st } n) (sym e)
        (from_end h p st n at stacked (subst (λ k. ¬ AtEnddoc n (pos k) st) e more))
]
  where
    below_or_at : (i < count_all n) ⊎ (i ≡ count_all n)
    below_or_at = omega arith

-- From each token of a closed document but its end, toNextToken returns a cursor that stands on
-- the document again with the type of its token, and toPrevToken then returns to the token and
-- the position before.
pub to_next_token-ThereAndBack :
    (h : Heap) (c : Cursor)
    → IsClosed h
    → (o : OnTrack h c) → ¬ AtEnddoc o.node c.position c.stack
    → ThereAndBack h c o.node
to_next_token-ThereAndBack h c closed o more =
    from_position h c.contents c.position c.stack o.node closed o.node_at o.inside o.stacked more

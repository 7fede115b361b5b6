-- ===== src/Cursor/Moves.antt =====
-- What one move of a cursor does, by what stands at its position.
use xmlbeansxx.Prelude.{
  ℕ, suc, ◌<◌, ◌≡◌, refl, ap, ◌∙◌, Option, none, some, Bool, true, false, ◌==◌, ltb, leb,
  if◌then◌else◌, length, pos, arith,
}
use xmlbeansxx.Dict.{DictEl}
use xmlbeansxx.Heap.{Node, Heap, ok, M, ◌>>=◌, and_then, node_of, load, return}
use xmlbeansxx.Cursor.{
  Cursor, TokenType, is_container, get_attribute_type, get_element_type, count_all, el_at,
  checked_el, get_pos, token_at, current_token_type, is_empty, at_pos, arrive, container_value,
  enter_or_pass, enter_last, leave, next_from, to_next_token, to_prev_token, lift,
}

-- The type of an attribute or element.
abbrev pub item_type : Node → ℕ → TokenType
item_type n i =
    if ltb i (length n.attrs)
    then get_attribute_type (el_at n i).name
    else get_element_type (el_at n i).name

-- The node behind a start-element token, if it has one.
abbrev pub value_at : Node → ℕ → Option ℕ
value_at n i = if is_container (item_type n i) then (el_at n i).value else none

pub token_at-item_type :
    (top : Bool) (n : Node) (i : ℕ) → i < count_all n → token_at top n (pos i) ≡ item_type n i
unfolding token_at
token_at-item_type top n i h = rw (not_end, before) refl
  where
    not_end : (i == count_all n) ≡ false
    not_end = ground arith

    before : ltb (count_all n) i ≡ false
    before = ground arith

-- A call that reads the node of the cursor.
pub load-at :
    {A : Type 0} (p : ℕ) (h : Heap) (n : Node) (f : Node → M A)
    → h.cell p ≡ some n
    → ((load p >>= f) h) ≡ f n h
load-at p h n f at = ap (λ o. and_then (node_of o h) f) at

pub current_token_type-at :
    (c : Cursor) (h : Heap) (n : Node)
    → h.cell c.contents ≡ some n
    → current_token_type c h ≡ (ok (token_at (is_empty c.stack) n c.position), h)
unfolding current_token_type
current_token_type-at c h n at =
    load-at c.contents h n (λ n. return (token_at (is_empty c.stack) n c.position)) at

pub arrive-at :
    (c : Cursor) (h : Heap) (n : Node)
    → h.cell c.contents ≡ some n
    → arrive c h ≡ (ok (token_at (is_empty c.stack) n c.position, c), h)
arrive-at c h n at = ap (λ r. and_then r (λ t. return (t, c))) (current_token_type-at c h n at)

get_pos-at :
    (c : Cursor) (h : Heap) (n : Node) (i : ℕ)
    → h.cell c.contents ≡ some n
    → i < count_all n
    → get_pos (at_pos c (pos i)) h ≡ (ok (el_at n i), h)
unfolding get_pos
get_pos-at c h n i at inside =
    load-at c.contents h n (λ n. lift (checked_el n (pos i))) at ∙ rw below refl
  where
    below : leb (count_all n) i ≡ false
    below = ground arith

container_value_if :
    (b : Bool) (el : DictEl ℕ) (m : M (DictEl ℕ)) (h : Heap)
    → m h ≡ (ok el, h)
    → (if b then (m >>= λ el. return el.value) else return none) h
      ≡ (ok (if b then el.value else none), h)
container_value_if true el m h e = ap (λ r. and_then r (λ el. return el.value)) e
container_value_if false el m h e = refl

pub container_value-at :
    (c : Cursor) (h : Heap) (n : Node) (i : ℕ)
    → h.cell c.contents ≡ some n
    → i < count_all n
    → container_value (at_pos c (pos i)) h ≡ (ok (value_at n i), h)
container_value-at c h n i at inside =
    ap
      (λ r.
        and_then r
          (λ t. if is_container t then (get_pos c' >>= λ el. return el.value) else return none))
      (current_token_type-at c' h n at)
    ∙ container_value_if (is_container (token_at (is_empty c.stack) n (pos i))) (el_at n i)
        (get_pos c') h (get_pos-at c h n i at inside)
    ∙ ap (λ t. (ok (if is_container t then (el_at n i).value else none), h))
        (token_at-item_type (is_empty c.stack) n i inside)
  where
    c' : Cursor
    c' = at_pos c (pos i)

-- A move from an attribute or element.
pub to_next_token-inside :
    (c : Cursor) (h : Heap) (n : Node) (i : ℕ)
    → h.cell c.contents ≡ some n
    → i < count_all n
    → to_next_token (at_pos c (pos i)) h ≡ enter_or_pass (at_pos c (pos i)) (value_at n i) h
unfolding to_next_token
to_next_token-inside c h n i at inside =
    load-at c.contents h n (λ n. next_from (at_pos c (pos i)) n (pos i)) at
    ∙ rw below (
        ap (λ r. and_then r (enter_or_pass (at_pos c (pos i))))
          (container_value-at c h n i at inside))
  where
    below : leb (count_all n) i ≡ false
    below = ground arith

-- A move from the end of a node.
pub to_next_token-end :
    (c : Cursor) (h : Heap) (n : Node)
    → h.cell c.contents ≡ some n
    → to_next_token (at_pos c (pos (count_all n))) h
      ≡ arrive (leave (at_pos c (pos (count_all n))) (count_all n)) h
unfolding to_next_token
to_next_token-end c h n at =
    load-at c.contents h n (λ m. next_from (at_pos c (pos (count_all n))) m (pos (count_all n))) at
    ∙ rw above refl
  where
    above : leb (count_all n) (count_all n) ≡ true
    above = ground arith

-- A move back from behind an attribute or element.
pub to_prev_token-inside :
    (c : Cursor) (h : Heap) (n : Node) (i : ℕ)
    → h.cell c.contents ≡ some n
    → i < count_all n
    → to_prev_token (at_pos c (pos (suc i))) h ≡ enter_last (at_pos c (pos i)) (value_at n i) h
unfolding to_prev_token
to_prev_token-inside c h n i at inside =
    ap (λ r. and_then r (enter_last (at_pos c (pos i)))) (container_value-at c h n i at inside)

-- ===== src/Cursor/Reading.antt =====
-- Runs of `hasNextToken` and `toNextToken`, and the order of the tokens in the tree.
use xmlbeansxx.Prelude.{
  ℕ, zero, suc, ◌+◌, ◌<◌, ◌≡◌, refl, ap, sym, subst, ◌∙◌, List, [], ◌∷◌, ◌++◌, Option, none, some,
  Bool, true, false, not, ltb, if◌then◌else◌, ℤ, pos, text_eq, length,
}
use xmlbeansxx.QName.{QName, qname_eq}
use xmlbeansxx.Heap.{Node, Heap, ok, and_then, return}
use xmlbeansxx.Contents.{text_element_name}
use xmlbeansxx.Cursor.{
  Cursor, TokenType, int_start, int_text, int_attr, int_namespace, xmlns, is_finish,
  get_attribute_type, get_element_type, count_all, el_at, token_at, is_empty, remember_and_swap,
  to_parent, enter_or_pass, to_next_token, has_next_token,
}
use xmlbeansxx.Cursor.Moves.{
  item_type, token_at-item_type, value_at, current_token_type-at, arrive-at, to_next_token-inside,
  to_next_token-end,
}

-- A document whose elements are nested at most `depth` deep, without a dangling pointer.
abbrev pub Below : Heap → ℕ → ℕ → Type 0
Below h zero p = ⊥
Below h (suc depth) p =
    (n : Node) × (h.cell p ≡ some n)
    × ((i q : ℕ) → i < count_all n → value_at n i ≡ some q → Below h depth q)

-- The tokens of the node behind an item, if it has one.
abbrev pub child_tokens : (ℕ → List TokenType) → Option ℕ → List TokenType
child_tokens tokens none = []
child_tokens tokens (some q) = tokens q

-- The tokens behind item `i`, of which `rounds` are in the same node.
unfoldable pub tokens_after : (ℕ → List TokenType) → Bool → Node → ℕ → ℕ → List TokenType
tokens_after tokens top n zero i = []
tokens_after tokens top n (suc rounds) i =
    child_tokens tokens (value_at n i)
    ++ token_at top n (pos (i + 1)) ∷ tokens_after tokens top n rounds (i + 1)

abbrev pub of_node : (Node → List TokenType) → Option Node → List TokenType
of_node f none = []
of_node f (some n) = f n

-- The tokens in a node and the nodes below it: each item, behind it what it contains, at last the
-- end of the node.
unfoldable pub node_tokens : Heap → ℕ → Bool → ℕ → List TokenType
node_tokens h zero top p = []
node_tokens h (suc depth) top p =
    of_node
      (λ n. token_at top n (pos 0) ∷ tokens_after (node_tokens h depth false) top n (count_all n) 0)
      (h.cell p)

-- Runs of `while (hasNextToken()) toNextToken()`, with the tokens that toNextToken returns.
pub data Reads (h : Heap) : Cursor → List TokenType → Cursor → Type 0 where
  stop : {c : Cursor} → Reads h c [] c
  move :
      {c c' c'' : Cursor} {t : TokenType} {ts : List TokenType}
      → has_next_token c h ≡ (ok true, h)
      → to_next_token c h ≡ (ok (t, c'), h)
      → Reads h c' ts c''
      → Reads h c (t ∷ ts) c''

pub Reads-append :
    {h : Heap} {a b c : Cursor} {ts us : List TokenType}
    → Reads h a ts b
    → Reads h b us c
    → Reads h a (ts ++ us) c
Reads-append stop s = s
Reads-append (move more step r) s = move more step (Reads-append r s)

pub is_finish-if :
    (b : Bool) (t u : TokenType)
    → is_finish t ≡ false
    → is_finish u ≡ false
    → is_finish (if b then t else u) ≡ false
is_finish-if true t u e f = e
is_finish-if false t u e f = f

pub is_finish-item_type : (n : Node) (i : ℕ) → is_finish (item_type n i) ≡ false
unfolding get_attribute_type get_element_type
is_finish-item_type n i =
    is_finish-if (ltb i (length n.attrs)) (get_attribute_type name) (get_element_type name)
      (is_finish-if (text_eq name.namespace_uri xmlns) int_namespace int_attr refl refl)
      (is_finish-if (qname_eq name text_element_name) int_text int_start refl refl)
  where
    name : QName
    name = (el_at n i).name

-- The loop goes on below the document's own node, and at a token that is not its end.
pub has_next_token-below :
    (h : Heap) (p : ℕ) (i : ℤ) (f : ℤ × ℕ) (st : List (ℤ × ℕ))
    → has_next_token record { contents = p; position = i; stack = f ∷ st } h ≡ (ok true, h)
unfolding has_next_token
has_next_token-below h p i f st = refl

pub has_next_token-unfinished :
    (h : Heap) (p : ℕ) (i : ℤ) (st : List (ℤ × ℕ)) (n : Node)
    → h.cell p ≡ some n
    → is_finish (token_at (is_empty st) n i) ≡ false
    → has_next_token record { contents = p; position = i; stack = st } h ≡ (ok true, h)
unfolding has_next_token
has_next_token-unfinished h p i (f ∷ st) n at e = refl
has_next_token-unfinished h p i [] n at e =
    ap (λ r. and_then r (λ t. return (not (is_finish t)))) (current_token_type-at c h n at)
    ∙ ap (λ b. (ok (not b), h)) e
  where
    c : Cursor
    c = record { contents = p; position = i; stack = [] }

pub has_next_token-inside :
    (h : Heap) (p i : ℕ) (st : List (ℤ × ℕ)) (n : Node)
    → h.cell p ≡ some n
    → i < count_all n
    → has_next_token record { contents = p; position = pos i; stack = st } h ≡ (ok true, h)
has_next_token-inside h p i st n at less =
    has_next_token-unfinished h p (pos i) st n at
      (ap is_finish (token_at-item_type (is_empty st) n i less) ∙ is_finish-item_type n i)

-- The tokens of a node are read from its first to its end.
abbrev pub Through : Heap → (ℕ → List TokenType) → ℕ → List (ℤ × ℕ) → Type 0
Through h tokens q st =
    (m : Node) × (ts : List TokenType) × (h.cell q ≡ some m)
    × (tokens q ≡ token_at (is_empty st) m (pos 0) ∷ ts)
    × Reads h record { contents = q; position = pos 0; stack = st } ts
        record { contents = q; position = pos (count_all m); stack = st }

-- Into the node behind an item, through it, out again, and on.
pub Through-child :
    (h : Heap) (tokens : ℕ → List TokenType) (p i q : ℕ) (n : Node) (st : List (ℤ × ℕ))
    (us : List TokenType) (c' : Cursor)
    → h.cell p ≡ some n
    → i < count_all n
    → value_at n i ≡ some q
    → Through h tokens q ((pos i, p) ∷ st)
    → Reads h record { contents = p; position = pos (i + 1); stack = st } us c'
    → Reads h
        record { contents = p; position = pos i; stack = st }
        (tokens q ++ token_at (is_empty st) n (pos (i + 1)) ∷ us)
        c'
unfolding to_parent remember_and_swap
Through-child h tokens p i q n st us c' at less value (m, ts, at', e, r) later =
    subst (λ vs. Reads h c (vs ++ token_at (is_empty st) n (pos (i + 1)) ∷ us) c') (sym e)
      (move (has_next_token-inside h p i st n at less)
        (to_next_token-inside c h n i at less
          ∙ ap (λ v. enter_or_pass c v h) value
          ∙ arrive-at (remember_and_swap c q) h m at')
        (Reads-append r (
          move (has_next_token-below h q (pos (count_all m)) (pos i, p) st)
            (to_next_token-end last h m at' ∙ arrive-at next h n at) later)))
  where
    c : Cursor
    c = record { contents = p; position = pos i; stack = st }

    last : Cursor
    last = record { contents = q; position = pos (count_all m); stack = (pos i, p) ∷ st }

    next : Cursor
    next = record { contents = p; position = pos (i + 1); stack = st }

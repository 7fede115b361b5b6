-- ===== src/Cursor/Order.antt =====
-- The order in which a loop of `hasNextToken` and `toNextToken` reads the tokens of a document.
use xmlbeansxx.Prelude.{
  ℕ, zero, suc, ◌+◌, ◌<◌, ◌≡◌, refl, ap, sym, subst, ◌∙◌, List, [], ◌∷◌, ◌++◌, some, Option-cases,
  Bool, true, false, not, ◌==◌, ℤ, pos, negsuc, inl, inr, arith,
}
use xmlbeansxx.Heap.{Node, Heap, ok, and_then, return}
use xmlbeansxx.Cursor.{
  Cursor, TokenType, int_enddoc, int_startdoc, is_finish, count_all, token_at, current_token_type,
  is_empty, at_pos, enter_or_pass, next_from, to_next_token, has_next_token, new_cursor,
}
use xmlbeansxx.Cursor.Moves.{
  value_at, load-at, current_token_type-at, arrive-at, to_next_token-inside,
}
use xmlbeansxx.Cursor.Reading.{
  Below, child_tokens, tokens_after, of_node, node_tokens, Reads, has_next_token-unfinished,
  has_next_token-inside, Through, Through-child, stop, move,
}

-- One item with what it contains, and on.
Through-item :
    (h : Heap) (tokens : ℕ → List TokenType) (p i : ℕ) (n : Node) (st : List (ℤ × ℕ))
    (us : List TokenType) (c' : Cursor)
    → h.cell p ≡ some n
    → i < count_all n
    → ((q : ℕ) → value_at n i ≡ some q → Through h tokens q ((pos i, p) ∷ st))
    → Reads h record { contents = p; position = pos (i + 1); stack = st } us c'
    → Reads h
        record { contents = p; position = pos i; stack = st }
        (child_tokens tokens (value_at n i) ++ token_at (is_empty st) n (pos (i + 1)) ∷ us)
        c'
Through-item h tokens p i n st us c' at less children later = elim (Option-cases (value_at n i)) [
  | inl absent ↦
      subst (λ v. Reads h c (child_tokens tokens v ++ t ∷ us) c') (sym absent)
        (move (has_next_token-inside h p i st n at less)
          (to_next_token-inside c h n i at less
            ∙ ap (λ v. enter_or_pass c v h) absent
            ∙ arrive-at (at_pos c (pos (i + 1))) h n at)
          later)
  | inr (q, value) ↦
      subst (λ v. Reads h c (child_tokens tokens v ++ t ∷ us) c') (sym value)
        (Through-child h tokens p i q n st us c' at less value (children q value) later)
]
  where
    c : Cursor
    c = record { contents = p; position = pos i; stack = st }

    t : TokenType
    t = token_at (is_empty st) n (pos (i + 1))

Through-items :
    (h : Heap) (tokens : ℕ → List TokenType) (p : ℕ) (n : Node) (st : List (ℤ × ℕ))
    → h.cell p ≡ some n
    → ((i q : ℕ) → i < count_all n → value_at n i ≡ some q → Through h tokens q ((pos i, p) ∷ st))
    → (rounds i : ℕ) → i + rounds ≡ count_all n
    → Reads h
        record { contents = p; position = pos i; stack = st }
        (tokens_after tokens (is_empty st) n rounds i)
        record { contents = p; position = pos (count_all n); stack = st }
unfolding tokens_after
Through-items h tokens p n st at children zero i e =
    subst
      (λ k.
        Reads h record { contents = p; position = pos i; stack = st } []
          record { contents = p; position = pos k; stack = st })
      (e0 i (count_all n) e) stop
  where
    e0 : (i k : ℕ) → i + 0 ≡ k → i ≡ k
    e0 i k e = omega arith
Through-items h tokens p n st at children (suc rounds) i e =
    Through-item h tokens p i n st (tokens_after tokens (is_empty st) n rounds (i + 1))
      record { contents = p; position = pos (count_all n); stack = st } at
      (less i rounds (count_all n) e)
      (λ q value. children i q (less i rounds (count_all n) e) value)
      (Through-items h tokens p n st at children rounds (i + 1) (shift i rounds (count_all n) e))
  where
    less : (i r k : ℕ) → i + suc r ≡ k → i < k
    less i r k e = omega arith

    shift : (i r k : ℕ) → i + suc r ≡ k → (i + 1) + r ≡ k
    shift i r k e = omega arith

node_tokens-at :
    (h : Heap) (depth : ℕ) (top : Bool) (p : ℕ) (n : Node)
    → h.cell p ≡ some n
    → node_tokens h (suc depth) top p
      ≡ token_at top n (pos 0) ∷ tokens_after (node_tokens h depth false) top n (count_all n) 0
unfolding node_tokens
node_tokens-at h depth top p n at =
    ap
      (of_node (λ n.
        token_at top n (pos 0) ∷ tokens_after (node_tokens h depth false) top n (count_all n) 0))
      at

through :
    (h : Heap) (depth p : ℕ) (st : List (ℤ × ℕ))
    → Below h depth p
    → Through h (node_tokens h depth (is_empty st)) p st
through h zero p st wrong = elim wrong [ ]
through h (suc depth) p st (n, at, below) = (
  n,
  tokens_after (node_tokens h depth false) (is_empty st) n (count_all n) 0,
  at,
  node_tokens-at h depth (is_empty st) p n at,
  Through-items h (node_tokens h depth false) p n st at
      (λ i q less value. through h depth q ((pos i, p) ∷ st) (below i q less value)) (count_all n) 0
      (omega arith),
)

-- The tokens of a document, by recursion on its tree.
unfoldable pub document_tokens : Heap → ℕ → ℕ → List TokenType
document_tokens h depth p = node_tokens h depth true p

-- At the end of the document p: `hasNextToken` is false.
abbrev pub AtEnd : Heap → ℕ → Cursor → Type 0
AtEnd h p c =
    (c.contents ≡ p)
    × (current_token_type c h ≡ (ok int_enddoc, h))
    × (has_next_token c h ≡ (ok false, h))

token_at-enddoc : (n : Node) → token_at true n (pos (count_all n)) ≡ int_enddoc
unfolding token_at
token_at-enddoc n = rw same refl
  where
    same : (count_all n == count_all n) ≡ true
    same = ground arith

token_at-startdoc : (n : Node) → token_at true n (negsuc 0) ≡ int_startdoc
unfolding token_at
token_at-startdoc n = refl

at_the_end :
    (h : Heap) (p : ℕ) (n : Node)
    → h.cell p ≡ some n
    → AtEnd h p record { contents = p; position = pos (count_all n); stack = [] }
unfolding has_next_token
at_the_end h p n at = (refl, type, ap (λ r. and_then r (λ t. return (not (is_finish t)))) type)
  where
    c : Cursor
    c = record { contents = p; position = pos (count_all n); stack = [] }

    type : current_token_type c h ≡ (ok int_enddoc, h)
    type = current_token_type-at c h n at ∙ ap (λ t. (ok t, h)) (token_at-enddoc n)

-- A loop of hasNextToken and toNextToken that starts with a new cursor ends: on a document whose
-- elements are nested at most `depth` deep it reads the tokens of the document in the order of
-- the tree, without a fault, and stops at the end-document token, where hasNextToken is false.
pub to_next_token-document_tokens :
    (h : Heap) (depth p : ℕ)
    → Below h depth p
    → (c : Cursor) × Reads h (new_cursor p) (document_tokens h depth p) c × AtEnd h p c
unfolding document_tokens to_next_token new_cursor
to_next_token-document_tokens h depth p below =
    let (n, ts, at, e, r) = through h depth p [] below in
    (
      record { contents = p; position = pos (count_all n); stack = [] },
      subst
          (λ us.
            Reads h (new_cursor p) us
              record { contents = p; position = pos (count_all n); stack = [] })
          (sym e)
          (move (has_next_token-startdoc n at)
            (load-at p h n (λ n. next_from (new_cursor p) n (negsuc 0)) at
              ∙ arrive-at (at_pos (new_cursor p) (pos 0)) h n at)
            r),
      at_the_end h p n at,
    )
  where
    has_next_token-startdoc :
        (n : Node) → h.cell p ≡ some n → has_next_token (new_cursor p) h ≡ (ok true, h)
    has_next_token-startdoc n at =
        has_next_token-unfinished h p (negsuc 0) [] n at (ap is_finish (token_at-startdoc n))

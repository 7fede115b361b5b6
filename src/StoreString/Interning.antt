-- ===== src/StoreString/Interning.antt =====
-- Equality and hash codes of interned strings: words stand for texts.
use xmlbeansxx.Prelude.{
  ℕ, zero, suc, ◌/◌, ◌≡◌, ap, sym, ◌∙◌, List, ◌∷◌, [], some, true, false, ◌&&◌, ◌==◌, Bool-cases,
  inl, inr, Option-cases, Text, text_eq, text_eq_iff, get_elem?, arith,
}
use xmlbeansxx.StoreString.Storage.{ok, SsInfo, hash_fn, map_find}
use xmlbeansxx.StoreString.Table.{entries, Distinct, StorageOk, map_find-get_elem?}
use xmlbeansxx.StoreString.{World, is_stored, c_str, hash_code, store_string_eq}

-- What the word of an object says when the object can be read.
data Reads (w : World) (x : ℕ) (s : Text) : Type 0 where
  interned :
      (e : SsInfo)
      → is_stored (w.bufs x) ≡ true
      → get_elem? w.storage.stored (w.bufs x / 2) ≡ some e
      → e.str ≡ s
      → Reads w x s
  owned :
      is_stored (w.bufs x) ≡ false
      → (w.bufs x == 0) ≡ false
      → w.cells (w.bufs x) ≡ some s
      → Reads w x s

c_str-Reads : (w : World) (x : ℕ) (s : Text) → c_str w x ≡ ok s → Reads w x s
unfolding c_str
c_str-Reads w x s h = elim (Bool-cases (is_stored (w.bufs x))) [
  | inl odd ↦ elim (Option-cases (get_elem? w.storage.stored (w.bufs x / 2))) [
    | inl out ↦ absurd (ground arith)
    | inr (e, at) ↦ interned e odd at (ground arith)
  ]
  | inr even ↦ elim (Bool-cases (w.bufs x == 0)) [
    | inl null ↦ absurd (ground arith)
    | inr real ↦ elim (Option-cases (w.cells (w.bufs x))) [
      | inl freed ↦ absurd (ground arith)
      | inr (t, at) ↦ owned even real (ground arith)
    ]
  ]
]

Distinct-hash_code :
    (k : ℕ) (r : List SsInfo) (e : SsInfo)
    → Distinct r
    → get_elem? r k ≡ some e
    → e.hash_code ≡ hash_fn e.str
Distinct-hash_code k [] e d h = cc
Distinct-hash_code zero (x ∷ r) e d h = ground arith
Distinct-hash_code (suc k) (x ∷ r) e d h = Distinct-hash_code k r e d.2 h

-- Two indices of one text are one index.
same_word :
    (r : List SsInfo) (b c : ℕ) (e f : SsInfo)
    → Distinct r
    → is_stored b ≡ true
    → is_stored c ≡ true
    → get_elem? r (b / 2) ≡ some e
    → get_elem? r (c / 2) ≡ some f
    → e.str ≡ f.str
    → b ≡ c
unfolding is_stored
same_word r b c e f d sb sc he hf same = ground (
  arith,
  map_find-get_elem? 0 (b / 2) r e d he,
  map_find-get_elem? 0 (c / 2) r f d hf,
  ap (λ t. map_find t (entries 0 r)) same,
)

both_indices :
    (w : World) (x y : ℕ) (s t : Text)
    → StorageOk w.storage
    → Reads w x s
    → Reads w y t
    → is_stored (w.bufs x) && is_stored (w.bufs y) ≡ true
    → (w.bufs x == w.bufs y) ≡ text_eq s t
both_indices w x y s t g (interned e odd at es) (interned f odd' at' fs) both = ground (
  arith,
  text_eq_iff s t,
  ap (λ b. get_elem? w.storage.stored (b / 2)) {x = w.bufs x} {y = w.bufs y},
  λ (p : s ≡ t).
      same_word w.storage.stored (w.bufs x) (w.bufs y) e f g.distinct odd odd' at at'
        (es ∙ p ∙ sym fs),
)
both_indices w x y s t g (interned e odd at es) (owned even real at') both = absurd (ground arith)
both_indices w x y s t g (owned even real at) _ both = absurd (ground arith)

-- `operator==` compares the texts, whichever way the two objects keep them: two indices are
-- compared as words, and that says the same.
pub store_string_eq-text_eq :
    (w : World) (x y : ℕ) (s t : Text)
    → StorageOk w.storage
    → c_str w x ≡ ok s
    → c_str w y ≡ ok t
    → store_string_eq w x y ≡ ok (text_eq s t)
unfolding store_string_eq
store_string_eq-text_eq w x y s t g hx hy =
    elim (Bool-cases (is_stored (w.bufs x) && is_stored (w.bufs y))) [
      | inl both ↦
          rw both
            (ap ok (both_indices w x y s t g (c_str-Reads w x s hx) (c_str-Reads w y t hy) both))
      | inr other ↦ rw (other, hx, hy)
    ]

-- `hashCode` is the hash of the text, taken from the table for an index.
pub hash_code-hash_fn :
    (w : World) (x : ℕ) (s : Text)
    → StorageOk w.storage
    → c_str w x ≡ ok s
    → hash_code w x ≡ ok (hash_fn s)
unfolding hash_code
hash_code-hash_fn w x s g h = go (c_str-Reads w x s h)
  where
    go : Reads w x s → hash_code w x ≡ ok (hash_fn s)
    go (interned e odd at same) =
        rw (odd, at)
          (ap ok
            (Distinct-hash_code (w.bufs x / 2) w.storage.stored e g.distinct at ∙ ap hash_fn same))
    go (owned even real at) = rw (even, real, at)

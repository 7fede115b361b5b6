-- ===== src/Arrays/Shared.antt =====
-- `shared_array` and `vector_conv` of src/xmlbeansxx/shared_array.h. A shared array is the list of
-- its `p_size` items; its pointer is never copied here, only read and, while it is built, written.
-- `none` is an access out of bounds. `blank` is an item made by the default constructor.
use xmlbeansxx.Prelude.{
  ℕ, zero, suc, ◌+◌, ◌≡◌, refl, ap, sym, ◌∙◌, List, [], ◌∷◌, ◌++◌, map, append_assoc, append-nil,
  Option, none, Bool, ◌==◌, length, get_elem?, get_or, set, replicate, length-append, get_or-append,
  set-append,
}

-- The iterator: an index into an array, unbounded in both directions at the start.
pub record Iterator {ℓ} (T : Type ℓ) : Type ℓ where
  pub p : ℕ
  pub a : List T

module _ {ℓ} {T : Type ℓ} where
  -- The constructor of a size.
  unfoldable pub shared_array : T → ℕ → List T
  shared_array blank n = replicate n blank

  unfoldable pub begin : List T → Iterator T
  begin a = record { p = 0; a = a }

  unfoldable pub end : List T → Iterator T
  end a = record { p = length a; a = a }

  -- `operator *`, `operator ++` and `operator !=`
  unfoldable pub current : Iterator T → Option T
  current it = get_elem? it.a it.p

  unfoldable pub next : Iterator T → Iterator T
  next it = record it { p = it.p + 1 }

  unfoldable pub equals : Iterator T → Iterator T → Bool
  equals it it2 = it.p == it2.p

  -- The loop of `toVector` from `i` on, with the rounds that are left.
  unfoldable pub push_items : T → List T → ℕ → ℕ → List T → List T
  push_items blank a zero i v = v
  push_items blank a (suc rounds) i v =
      push_items blank a rounds (i + 1) (v ++ get_or a i blank ∷ [])

  -- The vector is made with `p_size` items, and the items are then pushed behind them.
  unfoldable pub to_vector : T → List T → List T
  to_vector blank a = push_items blank a (length a) 0 (replicate (length a) blank)

module _ {ℓ κ} {T : Type ℓ} {U : Type κ} (conv : U → T) where
  -- The loop `b[i] = T(a[i])` over the items of `a` from `i` on.
  unfoldable pub assign_items : List U → ℕ → List T → List T
  assign_items [] i b = b
  assign_items (u ∷ a) i b = assign_items a (i + 1) (set b i (conv u))

unfoldable pub vector_conv {ℓ κ} : {T : Type ℓ} {U : Type κ} → T → (U → T) → List U → List T
vector_conv blank conv a = assign_items conv a 0 (replicate (length a) blank)

-- `static_array_cast`, `dynamic_array_cast` and `java_array_cast`, by the cast of one pointer.
unfoldable pub array_cast : (Option ℕ → Option ℕ) → List (Option ℕ) → List (Option ℕ)
array_cast cast a = assign_items cast a 0 (shared_array none (length a))

-- `toSharedArray`
unfoldable pub to_shared_array {ℓ} : {T : Type ℓ} → T → List T → List T
to_shared_array blank v = assign_items (λ t. t) v 0 (shared_array blank (length v))

module _ {ℓ κ} {T : Type ℓ} {U : Type κ} (conv : U → T) where
  assign_items-replicate :
      (blank : T) (a : List U) (done : List T)
      → assign_items conv a (length done) (done ++ replicate (length a) blank) ≡ done ++ map conv a
  unfolding assign_items
  assign_items-replicate blank [] done = refl
  assign_items-replicate blank (u ∷ a) done =
      ap (assign_items conv a (length done + 1)) (
        set-append done blank (conv u) (replicate (length a) blank)
        ∙ sym (append_assoc done (conv u ∷ []) (replicate (length a) blank)))
      ∙ ap (λ i. assign_items conv a i ((done ++ conv u ∷ []) ++ replicate (length a) blank))
          (sym (length-append done (conv u ∷ [])))
      ∙ assign_items-replicate blank a (done ++ conv u ∷ [])
      ∙ append_assoc done (conv u ∷ []) (map conv a)

  -- `vector_conv` gives the vector of the converted items, in their order.
  pub vector_conv-map : (blank : T) (a : List U) → vector_conv blank conv a ≡ map conv a
  unfolding vector_conv
  vector_conv-map blank a = assign_items-replicate blank a []

map_id {ℓ} : {T : Type ℓ} (v : List T) → map (λ t. t) v ≡ v
map_id [] = refl
map_id (t ∷ v) = ap (λ l. t ∷ l) (map_id v)

pub to_shared_array_lem {ℓ} : {T : Type ℓ} (blank : T) (v : List T) → to_shared_array blank v ≡ v
unfolding to_shared_array shared_array
to_shared_array_lem blank v = assign_items-replicate (λ t. t) blank v [] ∙ map_id v

push_items-append {ℓ} :
    {T : Type ℓ} (blank : T) (done a v : List T)
    → push_items blank (done ++ a) (length a) (length done) v ≡ v ++ a
unfolding push_items
push_items-append blank done [] v = sym (append-nil v)
push_items-append blank done (t ∷ a) v =
    ap (λ x. push_items blank (done ++ t ∷ a) (length a) (length done + 1) (v ++ x ∷ []))
      (get_or-append done t a blank)
    ∙ ap (λ l. push_items blank l (length a) (length done + 1) (v ++ t ∷ []))
        (sym (append_assoc done (t ∷ []) a))
    ∙ ap (λ i. push_items blank ((done ++ t ∷ []) ++ a) (length a) i (v ++ t ∷ []))
        (sym (length-append done (t ∷ [])))
    ∙ push_items-append blank (done ++ t ∷ []) a (v ++ t ∷ [])
    ∙ append_assoc v (t ∷ []) a

-- A vector that is made a shared array by `toSharedArray` and a vector again by `toVector` comes
-- back behind as many items of the default constructor as it has items.
pub to_vector-to_shared_array {ℓ} :
    {T : Type ℓ} (blank : T) (v : List T)
    → to_vector blank (to_shared_array blank v) ≡ replicate (length v) blank ++ v
unfolding to_vector
to_vector-to_shared_array blank v =
    ap (to_vector blank) (to_shared_array_lem blank v)
    ∙ push_items-append blank [] v (replicate (length v) blank)

-- ===== src/StoreString/Objects.antt =====
-- What the objects of the world hold after `free`, `construct`, `operator=` and `store`.
use xmlbeansxx.Prelude.{
  ℕ, ◌/◌, ◌%◌, ◌≡◌, ◌≢◌, ◌⊎◌, ap, sym, ◌∙◌, none, some, true, Bool-cases, inl, inr, Option-cases,
  Text, get_elem?, arith,
}
use xmlbeansxx.StoreString.Storage.{
  Result, ok, illegal_state, fault, cut, duplicate, get, StringStorage, map_find,
}
use xmlbeansxx.StoreString.Table.{StorageOk, Place, map_find-Place}
use xmlbeansxx.StoreString.{
  World, update, set_buf, is_stored, c_str, free, place, construct, copy_from, assign,
}

-- The call returns, and its world satisfies a predicate.
abbrev pub Returns : (World → Type 0) → Result World → Type 0
Returns P (ok w) = P w
Returns P illegal_state = ⊥
Returns P fault = ⊥

-- No other object owns the heap copy of `x`.
abbrev pub Separate : World → ℕ → ℕ → Type 0
Separate w x y = (w.bufs y ≢ w.bufs x) ⊎ (is_stored (w.bufs y) ≡ true)

pub free_storage : (w : World) (x : ℕ) → (free w x).storage ≡ w.storage
unfolding free is_stored
free_storage w x = ground arith

free_buf : (w : World) (x : ℕ) → (free w x).bufs x ≡ 0
unfolding free is_stored
free_buf w x = ground arith

free_other_buf : (w : World) (x y : ℕ) → x ≢ y → (free w x).bufs y ≡ w.bufs y
unfolding free is_stored
free_other_buf w x y h = ground arith

-- `free` leaves the strings of the other objects alone.
pub c_str-free : (w : World) (x y : ℕ) → x ≢ y → Separate w x y → c_str (free w x) y ≡ c_str w y
unfolding free c_str is_stored
c_str-free w x y h (inl other) = ground arith
c_str-free w x y h (inr odd) = ground arith

pub found_word :
    (st : StringStorage) (s : Text) (b : ℕ)
    → StorageOk st
    → map_find s st.contents ≡ some b
    → Place s 0 st.stored b
found_word st s b g h = map_find-Place s 0 st.stored b (ap (map_find s) (sym g.mirror) ∙ h)

c_str-copied :
    (w : World) (x a : ℕ) (s : Text)
    → a % 2 ≡ 0
    → a ≢ 0
    → c_str (record w { bufs = update w.bufs x a; cells = update w.cells a (some s) }) x ≡ ok s
unfolding c_str is_stored
c_str-copied w x a s even real = ground arith

pub c_str-indexed :
    (w : World) (x b : ℕ) (s : Text) → Place s 0 w.storage.stored b → c_str (set_buf w x b) x ≡ ok s
unfolding c_str is_stored
c_str-indexed w x b s p = ground (arith, ap (get_elem? w.storage.stored) at, p.there, p.text_is)
  where
    at : b / 2 ≡ p.position
    at = omega (arith, p.word)

place-missing :
    (w : World) (x a : ℕ) (s : Text)
    → map_find s w.storage.contents ≡ none
    → a % 2 ≡ 0
    → place w x a s ≡ ok (record w { bufs = update w.bufs x a; cells = update w.cells a (some s) })
unfolding place get duplicate
place-missing w x a s e even = ground arith

pub place-found :
    (w : World) (x a b : ℕ) (s : Text)
    → map_find s w.storage.contents ≡ some b
    → b ≢ 0
    → place w x a s ≡ ok (set_buf w x b)
unfolding place get duplicate
place-found w x a b s e real = ground arith

c_str-place :
    (w : World) (x a : ℕ) (s : Text)
    → StorageOk w.storage
    → a % 2 ≡ 0
    → a ≢ 0
    → Returns (λ w'. c_str w' x ≡ ok s) (place w x a s)
c_str-place w x a s g even real = elim (Option-cases (map_find s w.storage.contents)) [
  | inl missing ↦ rw (place-missing w x a s missing even) (c_str-copied w x a s even real)
  | inr (b, e) ↦
      let p = found_word w.storage s b g e in
      rw (place-found w x a b s e (omega (arith, p.word))) (c_str-indexed w x b s p)
]

-- `construct` always returns if `operator new` gives an even address, and the object then holds
-- the text up to its first NUL, interned or not.
pub c_str-construct :
    (w : World) (x a : ℕ) (str : Text)
    → StorageOk w.storage
    → a % 2 ≡ 0
    → a ≢ 0
    → Returns (λ w'. c_str w' x ≡ ok (cut str)) (construct w x a str)
unfolding construct
c_str-construct w x a str g even real =
    c_str-place (free w x) x a (cut str) (rw (free_storage w x) g) even real

-- An object that is assigned to itself has freed its string before it is read: the read is of a
-- null pointer, whatever the string was.
pub assign_self : (w : World) (x a : ℕ) → assign w x x a ≡ fault
unfolding assign copy_from free c_str is_stored
assign_self w x a = ground arith

Returns-map :
    (P Q : World → Type 0) (r : Result World)
    → ((w : World) → P w → Q w)
    → Returns P r
    → Returns Q r
Returns-map P Q (ok w) f p = f w p
Returns-map P Q illegal_state f p = p
Returns-map P Q fault f p = p

Returns-both :
    (P Q : World → Type 0) (r : Result World)
    → Returns P r
    → Returns Q r
    → Returns (λ w. P w × Q w) r
Returns-both P Q (ok w) p q = (p, q)
Returns-both P Q illegal_state p q = p
Returns-both P Q fault p q = p

c_str-copied_other :
    (w : World) (x y a : ℕ) (s : Text)
    → x ≢ y
    → w.bufs y ≢ a
    → c_str (record w { bufs = update w.bufs x a; cells = update w.cells a (some s) }) y ≡ c_str w y
unfolding c_str is_stored
c_str-copied_other w x y a s h fresh = ground arith

c_str-indexed_other : (w : World) (x y b : ℕ) → x ≢ y → c_str (set_buf w x b) y ≡ c_str w y
unfolding c_str is_stored
c_str-indexed_other w x y b h = ground arith

c_str-place_other :
    (w : World) (x y a : ℕ) (s : Text)
    → StorageOk w.storage
    → a % 2 ≡ 0
    → x ≢ y
    → w.bufs y ≢ a
    → Returns (λ w'. c_str w' y ≡ c_str w y) (place w x a s)
c_str-place_other w x y a s g even h fresh = elim (Option-cases (map_find s w.storage.contents)) [
  | inl missing ↦ rw (place-missing w x a s missing even) (c_str-copied_other w x y a s h fresh)
  | inr (b, e) ↦
      let p = found_word w.storage s b g e in
      rw (place-found w x a b s e (omega (arith, p.word))) (c_str-indexed_other w x y b h)
]

-- An object that can be read does not have the buffer 0 of a freed one.
Separate-freed :
    (w : World) (x y : ℕ) (t : Text) → x ≢ y → c_str w y ≡ ok t → Separate (free w x) x y
unfolding c_str free is_stored
Separate-freed w x y t h e = elim (Bool-cases (is_stored (w.bufs y))) [
  | inl odd ↦ inr (ground arith)
  | inr even ↦ inl (λ z. ground arith)
]

abbrev pub Both : ℕ → ℕ → Text → World → Type 0
Both x y t w = (c_str w x ≡ ok t) × (c_str w y ≡ ok t)

copied :
    (w : World) (x y a : ℕ) (t : Text)
    → StorageOk w.storage
    → a % 2 ≡ 0
    → a ≢ 0
    → x ≢ y
    → w.bufs y ≢ a
    → Separate w x y
    → c_str w y ≡ ok t
    → cut t ≡ t
    → Returns (Both x y t) (construct w x a t)
unfolding construct
copied w x y a t g even real h fresh sep e c =
    rw c
      (Returns-both _ _ (place (free w x) x a t) (c_str-place (free w x) x a t g' even real) other)
  where
    g' : StorageOk (free w x).storage
    g' = rw (free_storage w x) g

    other : Returns (λ w'. c_str w' y ≡ ok t) (place (free w x) x a t)
    other =
        Returns-map (λ w'. c_str w' y ≡ c_str (free w x) y) _ (place (free w x) x a t)
          (λ w' p. p ∙ c_str-free w x y h sep ∙ e)
          (c_str-place_other (free w x) x y a t g' even h (rw (free_other_buf w x y h) fresh))

-- An index read by one object is read as the same text by another that has the same index.
c_str-shared :
    (w : World) (x y : ℕ)
    → is_stored (w.bufs y) ≡ true
    → c_str (set_buf w x (w.bufs y)) x ≡ c_str w y
unfolding c_str is_stored
c_str-shared w x y odd = ground arith

copy_from-Both :
    (w : World) (x y a : ℕ) (t : Text)
    → StorageOk w.storage
    → a % 2 ≡ 0
    → a ≢ 0
    → x ≢ y
    → w.bufs y ≢ a
    → Separate w x y
    → c_str w y ≡ ok t
    → cut t ≡ t
    → Returns (Both x y t) (copy_from w x y a)
unfolding copy_from
copy_from-Both w x y a t g even real h fresh sep e c =
    elim (Bool-cases (is_stored ((free w x).bufs y))) [
      | inl odd ↦
          rw odd (
            c_str-shared (free w x) x y odd ∙ freed,
            c_str-indexed_other (free w x) x y _ h ∙ freed,
          )
      | inr owned ↦
          rw (owned, freed)
            (copied (free w x) x y a t (rw (free_storage w x) g) even real h
              (rw (free_other_buf w x y h) fresh) (Separate-freed w x y t h e) freed c)
    ]
  where
    freed : c_str (free w x) y ≡ ok t
    freed = c_str-free w x y h sep ∙ e

-- `x = y` for two objects returns, and both then hold the text that `y` held, where the table of the
-- interned strings is a good one, the text has no NUL, no other object owns the heap copy of `x`,
-- and `operator new` gives an even address that is not null and not the buffer of `y`.
pub c_str-assign :
    (w : World) (x y a : ℕ) (t : Text)
    → StorageOk w.storage
    → a % 2 ≡ 0
    → a ≢ 0
    → x ≢ y
    → w.bufs y ≢ a
    → Separate w x y
    → c_str w y ≡ ok t
    → cut t ≡ t
    → Returns (Both x y t) (assign w x y a)
unfolding assign
c_str-assign w x y a t g even real h fresh sep e c =
    copy_from-Both (free w x) x y a t (rw (free_storage w x) g) even real h
      (rw (free_other_buf w x y h) fresh) (Separate-freed w x y t h e) (c_str-free w x y h sep ∙ e)
      c

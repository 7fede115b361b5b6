-- ===== src/Dict/Values.antt =====
-- The abstract view of a dictionary: to each name the list of the values that stand under it, in
-- order. The laws of `find`, `count`, `add`, `set` and `removeAt` of src/xmlbeansxx/Dict.cpp.
use xmlbeansxx.Prelude.{
  ℕ, zero, suc, ◌+◌, ◌-◌, ◌≤◌, ◌<◌, ◌≡◌, refl, ap, sym, ◌∙◌, List, [], ◌∷◌, ◌++◌, append-nil,
  append_assoc, Option, none, true, false, ◌&&◌, ◌==◌, if◌then◌else◌, Bool-cases, inl, inr, length,
  get_or, replicate, pos, negsuc, arith,
}
use xmlbeansxx.QName.{QName, qname_eq, qname_eq_left, qname_eq_right}
use xmlbeansxx.Dict.{
  DictEl, ElemDict, no_el, find, count, add, pad, SetScan, done, missed, set_scan, finish_set,
  behind, set_at, remove_at,
}

module _ {A : Type 0} where
  unfoldable pub values : ElemDict A → QName → List (Option A)
  values [] u = []
  values (it ∷ rest) u =
      let later = values rest u in if qname_eq it.name u then it.value ∷ later else later

  -- A write at a position, with null pointers put before it where the list is too short.
  abbrev pub set_padded : List (Option A) → ℕ → Option A → List (Option A)
  set_padded [] zero v = v ∷ []
  set_padded [] (suc n) v = none ∷ set_padded [] n v
  set_padded (x ∷ xs) zero v = v ∷ xs
  set_padded (x ∷ xs) (suc n) v = x ∷ set_padded xs n v

  abbrev pub remove_nth : List (Option A) → ℕ → List (Option A)
  remove_nth [] n = []
  remove_nth (x ∷ xs) zero = xs
  remove_nth (x ∷ xs) (suc n) = x ∷ remove_nth xs n

  -- The values depend on the name only up to equality of names.
  pub values-qname_eq :
      (d : ElemDict A) (u w : QName) → qname_eq u w ≡ true → values d u ≡ values d w
  unfolding values
  values-qname_eq [] u w h = refl
  values-qname_eq (it ∷ rest) u w h =
      ground (arith, qname_eq_right u w it.name h, values-qname_eq rest u w h)

  pub count-values : (d : ElemDict A) (u : QName) → count d u ≡ length (values d u)
  unfolding count values
  count-values [] u = refl
  count-values (it ∷ rest) u = ground (arith, count-values rest u)

  -- `find` reads the values: it gives the one at the index, and the null pointer past the end.
  pub find-values :
      (d : ElemDict A) (u : QName) (n : ℕ) → (find d u (pos n)).value ≡ get_or (values d u) n none
  unfolding find values
  find-values [] u n = refl
  find-values (it ∷ rest) u zero = ground (arith, find-values rest u 0)
  find-values (it ∷ rest) u (suc n) =
      ground (arith, find-values rest u n, find-values rest u (suc n))

  -- No element answers to a negative index.
  pub find-negsuc : (d : ElemDict A) (u : QName) (n : ℕ) → find d u (negsuc n) ≡ no_el
  unfolding find
  find-negsuc [] u n = refl
  find-negsuc (it ∷ rest) u zero = ground (arith, find-negsuc rest u 0, find-negsuc rest u 1)
  find-negsuc (it ∷ rest) u (suc n) =
      ground (arith, find-negsuc rest u (suc n), find-negsuc rest u (suc (suc n)))

  pub values-add :
      (d : ElemDict A) (u w : QName) (v : Option A)
      → values (add d u v) w ≡ (if qname_eq u w then values d w ++ v ∷ [] else values d w)
  unfolding values add
  values-add [] u w v = ground arith
  values-add (it ∷ rest) u w v = ground (arith, values-add rest u w v)

  values-pad_same :
      (n : ℕ) (d : ElemDict A) (u w : QName)
      → qname_eq u w ≡ true
      → values (pad n d u) w ≡ values d w ++ replicate n none
  unfolding pad
  values-pad_same zero d u w h = sym (append-nil (values d w))
  values-pad_same (suc n) d u w h =
      values-pad_same n (add d u none) u w h
      ∙ rw (values-add d u w none, h) (append_assoc (values d w) (none ∷ []) (replicate n none))

  values-pad_other :
      (n : ℕ) (d : ElemDict A) (u w : QName)
      → qname_eq u w ≡ false
      → values (pad n d u) w ≡ values d w
  unfolding pad
  values-pad_other zero d u w h = refl
  values-pad_other (suc n) d u w h =
      ground (arith, values-pad_other n (add d u none) u w h, values-add d u w none)

  set_padded_past :
      (xs : List (Option A)) (k n : ℕ) (v : Option A)
      → n ≡ length xs + k
      → (xs ++ replicate k none) ++ v ∷ [] ≡ set_padded xs n v
  set_padded_past [] zero zero v h = refl
  set_padded_past [] zero (suc n) v h = absurd (omega arith)
  set_padded_past [] (suc k) zero v h = absurd (omega arith)
  set_padded_past [] (suc k) (suc n) v h = ap (◌∷◌ none) (set_padded_past [] k n v (omega arith))
  set_padded_past (x ∷ xs) k zero v h = absurd (omega arith)
  set_padded_past (x ∷ xs) k (suc n) v h = ap (◌∷◌ x) (set_padded_past xs k n v (omega arith))

  -- What the loop of `set` leaves, seen at the name `w`: the vector with the value put in, or the
  -- part of the position that the elements of that name did not use up.
  abbrev Scanned : ElemDict A → QName → QName → ℕ → Option A → SetScan A → Type 0
  Scanned d u w n v (done d') =
      (n < count d u)
      × (values d' w ≡ (if qname_eq u w then set_padded (values d w) n v else values d w))
  Scanned d u w n v (missed m) = (count d u ≤ n) × (m ≡ pos (n - count d u))

  Scanned-miss :
      (it : DictEl A) (rest : ElemDict A) (u w : QName) (n : ℕ) (v : Option A) (r : SetScan A)
      → qname_eq it.name u ≡ false
      → Scanned rest u w n v r
      → Scanned (it ∷ rest) u w n v (behind it r)
  unfolding values count
  Scanned-miss it rest u w n v (done d') miss s = ground (arith, qname_eq_right u w it.name)
  Scanned-miss it rest u w n v (missed m) miss s = ground arith

  Scanned-hit :
      (it : DictEl A) (rest : ElemDict A) (u w : QName) (n : ℕ) (v : Option A) (r : SetScan A)
      → qname_eq it.name u ≡ true
      → Scanned rest u w n v r
      → Scanned (it ∷ rest) u w (suc n) v (behind it r)
  unfolding values count
  Scanned-hit it rest u w n v (done d') hit s = ground (arith, qname_eq_left it.name u w hit)
  Scanned-hit it rest u w n v (missed m) hit s = ground arith

  Scanned-set_scan :
      (d : ElemDict A) (u w : QName) (n : ℕ) (v : Option A)
      → Scanned d u w n v (set_scan d u (pos n) v)
  unfolding set_scan values count
  Scanned-set_scan [] u w n v = (omega arith, ap pos (omega arith))
  Scanned-set_scan (it ∷ rest) u w zero v = elim (Bool-cases (qname_eq it.name u)) [
    | inl hit ↦ ground (arith, qname_eq_left it.name u w hit)
    | inr miss ↦ rw miss (Scanned-miss it rest u w 0 v _ miss (Scanned-set_scan rest u w 0 v))
  ]
  Scanned-set_scan (it ∷ rest) u w (suc n) v = elim (Bool-cases (qname_eq it.name u)) [
    | inl hit ↦ rw hit (Scanned-hit it rest u w n v _ hit (Scanned-set_scan rest u w n v))
    | inr miss ↦
        rw miss (Scanned-miss it rest u w (suc n) v _ miss (Scanned-set_scan rest u w (suc n) v))
  ]

  finish_set-values :
      (d : ElemDict A) (u w : QName) (n : ℕ) (v : Option A) (r : SetScan A)
      → Scanned d u w n v r
      → values (finish_set d u v r) w
        ≡ (if qname_eq u w then set_padded (values d w) n v else values d w)
  unfolding finish_set
  finish_set-values d u w n v (done d') s = s.1
  finish_set-values d u w n v (missed m) s = rw s.1 (elim (Bool-cases (qname_eq u w)) [
    | inl same ↦
        rw (values-add _ u w v, same, values-pad_same (n - count d u) d u w same)
          (set_padded_past (values d w) (n - count d u) n v
            (omega (arith, count-values d u, ap length (values-qname_eq d u w same), s.0)))
    | inr other ↦ rw (values-add _ u w v, other) (values-pad_other (n - count d u) d u w other)
  ])

  -- `set` writes the value at its position among those of its name, with null pointers put in
  -- before it where there are too few, and leaves the values of every other name alone.
  pub values-set_at :
      (d : ElemDict A) (u w : QName) (n : ℕ) (v : Option A)
      → values (set_at d u (pos n) v) w
        ≡ (if qname_eq u w then set_padded (values d w) n v else values d w)
  unfolding set_at
  values-set_at d u w n v = finish_set-values d u w n v _ (Scanned-set_scan d u w n v)

  get_or-set_padded :
      (xs : List (Option A)) (n m : ℕ) (v : Option A)
      → get_or (set_padded xs n v) m none ≡ (if n == m then v else get_or xs m none)
  get_or-set_padded [] zero zero v = refl
  get_or-set_padded [] zero (suc m) v = ground arith
  get_or-set_padded [] (suc n) zero v = ground arith
  get_or-set_padded [] (suc n) (suc m) v = ground (arith, get_or-set_padded [] n m v)
  get_or-set_padded (x ∷ xs) zero zero v = refl
  get_or-set_padded (x ∷ xs) zero (suc m) v = ground arith
  get_or-set_padded (x ∷ xs) (suc n) zero v = ground arith
  get_or-set_padded (x ∷ xs) (suc n) (suc m) v = ground (arith, get_or-set_padded xs n m v)

  -- What is put in at a name and a position is found there, and nothing changes elsewhere.
  pub find-set_at :
      (d : ElemDict A) (u w : QName) (n m : ℕ) (v : Option A)
      → (find (set_at d u (pos n) v) w (pos m)).value
        ≡ (if qname_eq u w && (n == m) then v else (find d w (pos m)).value)
  find-set_at d u w n m v =
      rw (find-values (set_at d u (pos n) v) w m, find-values d w m, values-set_at d u w n v)
        (ground (arith, get_or-set_padded (values d w) n m v))

  -- `removeAt` at a non-negative index takes the value at that index out of the list of values of its
  -- name, where there is one, and leaves that list as it is past its end, and the lists of all other
  -- names always.
  pub values-remove_at :
      (d : ElemDict A) (u w : QName) (n : ℕ)
      → values (remove_at d u (pos n)) w
        ≡ (if qname_eq u w then remove_nth (values d w) n else values d w)
  unfolding remove_at values
  values-remove_at [] u w n = ground arith
  values-remove_at (it ∷ rest) u w zero =
      ground
        (arith, qname_eq_left it.name u w, qname_eq_right u w it.name, values-remove_at rest u w 0)
  values-remove_at (it ∷ rest) u w (suc n) = ground (
    arith,
    qname_eq_left it.name u w,
    qname_eq_right u w it.name,
    values-remove_at rest u w n,
    values-remove_at rest u w (suc n),
  )

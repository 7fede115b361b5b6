-- ===== src/Dict.antt =====
-- `ElemDict`, the ordered multi-dictionary of src/xmlbeansxx/Dict.h and Dict.cpp that holds the
-- attributes and the child elements of every `Contents`. A value is a shared pointer: here an
-- `Option A`, whose `none` is the null pointer, over any type `A` of pointers. No operation of
-- the dictionary follows a pointer. The children state its laws against `Values`, the list of
-- the values that stand under one name.
pub mod Values
pub mod Delete
pub mod Appending
mod Examples
use xmlbeansxx.Prelude.{
  ℕ, zero, suc, ◌+◌, ◌-◌, List, [], ◌∷◌, ◌++◌, Option, none, some, Bool, true, false, not, ◌&&◌,
  ◌==◌, if◌then◌else◌, length, get_or, set, take, ℤ, pos, dec, is_minus_one, is_zero, pos_part,
}
use xmlbeansxx.QName.{QName, empty_qname, qname_eq}

-- `DictEl<T>`, with `T` a pointer.
pub record DictEl (A : Type 0) : Type 0 where
  pub name : QName
  pub value : Option A

abbrev pub dict_el : {A : Type 0} → QName → Option A → DictEl A
dict_el u v = record { name = u; value = v }

-- `ContentsType`, the vector that is the dictionary's only field.
abbrev pub ElemDict : Type 0 → Type 0
ElemDict A = List (DictEl A)

-- The loop of `set` over the elements: the dictionary with the value put in, or the `pos` that
-- is left at the end.
pub data SetScan (A : Type 0) : Type 0 where
  done : ElemDict A → SetScan A
  missed : ℤ → SetScan A

-- The state of the loop of `del`: the vector that it compacts in place, its two positions and
-- its counter.
pub record DelState (A : Type 0) : Type 0 where
  pub contents : ElemDict A
  pub p : ℕ
  pub p2 : ℕ
  pub ile : ℕ

module _ {A : Type 0} where
  -- `value_type()`: the empty name and the null pointer.
  abbrev pub no_el : DictEl A
  no_el = dict_el empty_qname none

  unfoldable pub size : ElemDict A → ℕ
  size contents = length contents

  unfoldable pub has_empty_content : ElemDict A → Bool
  has_empty_content [] = true
  has_empty_content (it ∷ rest) = elim it.value [ some p ↦ false | none ↦ has_empty_content rest ]

  -- The countdown is taken only at an element of that name.
  unfoldable pub find : ElemDict A → QName → ℤ → DictEl A
  find [] u nr = no_el
  find (it ∷ rest) u nr =
      let hit = qname_eq it.name u in
      let nr' = if hit then dec nr else nr in
      let later = find rest u nr' in if hit && is_minus_one nr' then it else later

  unfoldable pub count : ElemDict A → QName → ℕ
  count [] u = 0
  count (it ∷ rest) u = let later = count rest u in if qname_eq it.name u then suc later else later

  unfoldable pub add : ElemDict A → QName → Option A → ElemDict A
  add contents u v = contents ++ dict_el u v ∷ []

  -- `for(int i=0;i<pos;i++) add(u,data_type());`
  unfoldable pub pad : ℕ → ElemDict A → QName → ElemDict A
  unfolding add
  pad zero contents u = contents
  pad (suc n) contents u = pad n (add contents u none) u

  abbrev pub behind : DictEl A → SetScan A → SetScan A
  behind it (done rest) = done (it ∷ rest)
  behind it (missed pos') = missed pos'

  unfoldable pub set_scan : ElemDict A → QName → ℤ → Option A → SetScan A
  set_scan [] u pos' v = missed pos'
  set_scan (it ∷ rest) u pos' v =
      let hit = qname_eq it.name u in
      let later = set_scan rest u (if hit then dec pos' else pos') v in
      if hit && is_zero pos' then done (dict_el u v ∷ rest) else behind it later

  unfoldable pub finish_set : ElemDict A → QName → Option A → SetScan A → ElemDict A
  unfolding add pad
  finish_set contents u v (done contents') = contents'
  finish_set contents u v (missed pos') = add (pad (pos_part pos') contents u) u v

  -- `ElemDict::set`.
  unfoldable pub set_at : ElemDict A → QName → ℤ → Option A → ElemDict A
  unfolding set_scan finish_set
  set_at contents u pos' v = finish_set contents u v (set_scan contents u pos' v)

  -- `if (p!=p2) contents[p2]=contents[p];`
  unfoldable pub move_down : ElemDict A → ℕ → ℕ → ElemDict A
  move_down contents p p2 =
      if not (p == p2) then set contents p2 (get_or contents p no_el) else contents

  -- One round of the loop of `del`.
  unfoldable pub del_round : QName → DelState A → DelState A
  unfolding move_down
  del_round u s =
      let c = move_down s.contents s.p s.p2 in
      if qname_eq (get_or c s.p no_el).name u
      then record { contents = set c s.p no_el; p = s.p + 1; p2 = s.p2; ile = s.ile + 1 }
      else record { contents = c; p = s.p + 1; p2 = s.p2 + 1; ile = s.ile }

  -- The loop runs while `p` is below the size, which it leaves alone: the rounds left are given.
  unfoldable pub del_loop : ℕ → QName → DelState A → DelState A
  unfolding del_round
  del_loop zero u s = s
  del_loop (suc rounds) u s = del_loop rounds u (del_round u s)

  -- The state after the loop; `ile` elements are then popped, and `ile` is returned.
  unfoldable pub del_end : ElemDict A → QName → DelState A
  unfolding del_loop
  del_end contents u =
      del_loop (length contents) u (record { contents = contents; p = 0; p2 = 0; ile = 0 })

  unfoldable pub del : ElemDict A → QName → ElemDict A × ℕ
  unfolding del_end
  del contents u =
      let s = del_end contents u in (take (length s.contents - s.ile) s.contents, s.ile)

  unfoldable pub remove_at : ElemDict A → QName → ℤ → ElemDict A
  remove_at [] u index = []
  remove_at (it ∷ rest) u index =
      let hit = qname_eq it.name u in
      let index' = if hit then dec index else index in
      let later = remove_at rest u index' in if hit && is_minus_one index' then rest else it ∷ later

  unfoldable pub free : ElemDict A → ElemDict A
  free contents = []

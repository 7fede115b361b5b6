-- ===== src/StoreString/Table.antt =====
-- The invariant of the table of stored strings, kept by `StringStorage::add`.
use xmlbeansxx.Prelude.{
  ℕ, zero, suc, ◌+◌, ◌*◌, ◌%◌, ◌≡◌, refl, ap, sym, ◌∙◌, List, [], ◌∷◌, ◌++◌, Option, none, some,
  false, Bool-cases, inl, inr, Option-cases, Text, text_eq, text_eq_iff, text_eq_refl, length,
  get_elem?, arith, text_eq_sym, ==_iff,
}
use xmlbeansxx.StoreString.Storage.{
  Result, ok, illegal_state, fault, SsInfo, StringStorage, hash_fn, map_find, map_insert, from_null,
  add, new_storage,
}

-- What the map holds: each text of the vector with the odd word of its position.
abbrev pub entries : ℕ → List SsInfo → List (Text × ℕ)
entries i [] = []
entries i (e ∷ r) = (e.str, 2 * i + 1) ∷ entries (suc i) r

abbrev pub Absent : Text → List SsInfo → Type 0
Absent s [] = Unit {0}
Absent s (e ∷ r) = (text_eq e.str s ≡ false) × Absent s r

-- Every text stands there once, beside its own hash code.
abbrev pub Distinct : List SsInfo → Type 0
Distinct [] = Unit {0}
Distinct (e ∷ r) = Absent e.str r × (e.hash_code ≡ hash_fn e.str) × Distinct r

pub record StorageOk (st : StringStorage) : Type 0 where
  pub mirror : st.contents ≡ entries 0 st.stored
  pub distinct : Distinct st.stored

-- An index into the vector at which a text stands, and its word.
pub record Place (s : Text) (i : ℕ) (r : List SsInfo) (b : ℕ) : Type 0 where
  pub position : ℕ
  pub info : SsInfo
  pub there : get_elem? r position ≡ some info
  pub word : b ≡ 2 * (i + position) + 1
  pub text_is : info.str ≡ s

pub map_find-Place :
    (s : Text) (i : ℕ) (r : List SsInfo) (b : ℕ) → map_find s (entries i r) ≡ some b → Place s i r b
unfolding map_find
map_find-Place s i [] b h = cc
map_find-Place s i (e ∷ r) b h = elim (Bool-cases (text_eq e.str s)) [
  | inl same ↦ record {
    position = 0;
    info = e;
    there = refl;
    word = ground (arith, same);
    text_is = (text_eq_iff e.str s).0 same;
  }
  | inr other ↦
      let p = map_find-Place s (suc i) r b (ground arith) in
      record {
        position = suc p.position;
        info = p.info;
        there = p.there;
        word = omega (arith, p.word);
        text_is = p.text_is;
      }
]

Absent-get_elem? :
    (s : Text) (r : List SsInfo) (k : ℕ) (e : SsInfo)
    → Absent s r
    → get_elem? r k ≡ some e
    → text_eq e.str s ≡ false
Absent-get_elem? s [] k e a h = cc
Absent-get_elem? s (x ∷ r) zero e a h = ground arith
Absent-get_elem? s (x ∷ r) (suc k) e a h = Absent-get_elem? s r k e a.1 h

-- The map finds each text of the vector at its position.
pub map_find-get_elem? :
    (i k : ℕ) (r : List SsInfo) (e : SsInfo)
    → Distinct r
    → get_elem? r k ≡ some e
    → map_find e.str (entries i r) ≡ some (2 * (i + k) + 1)
unfolding map_find
map_find-get_elem? i k [] e d h = cc
map_find-get_elem? i zero (x ∷ r) e d h = ground (arith, text_eq_refl e.str)
map_find-get_elem? i (suc k) (x ∷ r) e d h = ground (
  arith,
  Absent-get_elem? x.str r k e d.0 h,
  text_eq_sym x.str e.str,
  map_find-get_elem? (suc i) k r e d.2 h,
)

map_find-none-Absent :
    (s : Text) (i : ℕ) (r : List SsInfo) → map_find s (entries i r) ≡ none → Absent s r
unfolding map_find
map_find-none-Absent s i [] h = tt
map_find-none-Absent s i (e ∷ r) h = elim (Bool-cases (text_eq e.str s)) [
  | inl same ↦ absurd (ground arith)
  | inr other ↦ (other, map_find-none-Absent s (suc i) r (ground arith))
]

map_insert-entries :
    (e : SsInfo) (b i : ℕ) (r : List SsInfo)
    → b ≡ 2 * (i + length r) + 1
    → Absent e.str r
    → map_insert e.str b (entries i r) ≡ entries i (r ++ e ∷ [])
unfolding map_insert
map_insert-entries e b i [] h a = ground arith
map_insert-entries e b i (x ∷ r) h a =
    ground (arith, map_insert-entries e b (suc i) r (omega arith) a.1)

Absent-append :
    (s : Text) (r : List SsInfo) (e : SsInfo)
    → Absent s r
    → text_eq e.str s ≡ false
    → Absent s (r ++ e ∷ [])
Absent-append s [] e a h = (h, tt)
Absent-append s (x ∷ r) e a h = (a.0, Absent-append s r e a.1 h)

Distinct-append :
    (r : List SsInfo) (e : SsInfo)
    → Distinct r
    → Absent e.str r
    → e.hash_code ≡ hash_fn e.str
    → Distinct (r ++ e ∷ [])
Distinct-append [] e d a h = (tt, h, tt)
Distinct-append (x ∷ r) e d a h = (
  Absent-append x.str r e d.0 (text_eq_sym e.str x.str ∙ a.0),
  d.1,
  Distinct-append r e d.2 a.1 h,
)

pub get_elem?-append :
    (r : List SsInfo) (x e : SsInfo) (k : ℕ)
    → get_elem? r k ≡ some e
    → get_elem? (r ++ x ∷ []) k ≡ some e
get_elem?-append [] x e k h = cc
get_elem?-append (y ∷ r) x e zero h = h
get_elem?-append (y ∷ r) x e (suc k) h = get_elem?-append r x e k h

-- What `add` gives: a good table in which the text is found, and every string handed out before
-- still stands at its index.
pub record Added (st : StringStorage) (s : Text) (st' : StringStorage) : Type 0 where
  pub good : StorageOk st'
  pub kept : (k : ℕ) (e : SsInfo) → get_elem? st.stored k ≡ some e → get_elem? st'.stored k ≡ some e
  pub word : ℕ
  pub finds : map_find s st'.contents ≡ some word

abbrev pub AddEnds : StringStorage → Text → Result StringStorage → Type 0
AddEnds st s (ok st') = Added st s st'
AddEnds st s illegal_state = ⊥
AddEnds st s fault = ⊥

map_find_last :
    (e : SsInfo) (i : ℕ) (r : List SsInfo)
    → Absent e.str r
    → map_find e.str (entries i (r ++ e ∷ [])) ≡ some (2 * (i + length r) + 1)
unfolding map_find
map_find_last e i [] a = ground (arith, text_eq_refl e.str)
map_find_last e i (x ∷ r) a = ground (arith, map_find_last e (suc i) r a.1)

abbrev new_info : Text → SsInfo
new_info s = record { str = s; hash_code = hash_fn s }

Added-missing :
    (st : StringStorage) (s : Text)
    → StorageOk st
    → map_find s st.contents ≡ none
    → Added st s (record {
      contents = map_insert s (2 * length st.stored + 1) st.contents;
      stored = st.stored ++ new_info s ∷ [];
    })
Added-missing st s g missing = record {
  good = record {
    mirror = inserted;
    distinct = Distinct-append st.stored (new_info s) g.distinct absent refl;
  };
  kept = λ k e h. get_elem?-append st.stored (new_info s) e k h;
  word = 2 * (0 + length st.stored) + 1;
  finds = ap (map_find s) inserted ∙ map_find_last (new_info s) 0 st.stored absent;
}
  where
    absent : Absent s st.stored
    absent = map_find-none-Absent s 0 st.stored (ap (map_find s) (sym g.mirror) ∙ missing)

    inserted :
        map_insert s (2 * length st.stored + 1) st.contents
        ≡ entries 0 (st.stored ++ new_info s ∷ [])
    inserted =
        ap (map_insert s (2 * length st.stored + 1)) g.mirror
        ∙ map_insert-entries (new_info s) (2 * length st.stored + 1) 0 st.stored (omega arith)
            absent

-- `add` at an even address always succeeds. It keeps the table good, leaves the strings that stand
-- in it at their indices, and the text it was given (the empty one for a null pointer) is found.
pub AddEnds-add :
    (st : StringStorage) (a : ℕ) (cs : Option Text)
    → StorageOk st
    → a % 2 ≡ 0
    → AddEnds st (from_null cs) (add st a cs)
unfolding add
AddEnds-add st a cs g even = elim (Option-cases (map_find (from_null cs) st.contents)) [
  | inl missing ↦
      rw (missing, (==_iff (a % 2) 0).1 even) (Added-missing st (from_null cs) g missing)
  | inr (b, e) ↦ rw e (record { good = g; kept = λ k x h. h; word = b; finds = e })
]

empty_storage-StorageOk : StorageOk (record { contents = []; stored = [] })
empty_storage-StorageOk = record { mirror = refl; distinct = tt }

-- The constructor's table is good, and holds the empty string.
pub AddEnds-new_storage :
    (a : ℕ) → a % 2 ≡ 0 → AddEnds (record { contents = []; stored = [] }) [] (new_storage a)
unfolding new_storage
AddEnds-new_storage a even = AddEnds-add _ a (some []) empty_storage-StorageOk even

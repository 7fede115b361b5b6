-- ===== src/StoreString/Storage.antt =====
-- `StringStorage`, the table of stored strings: src/xmlbeansxx/StoreString.h and StoreString.cpp.
-- A C string is the list of the bytes before its terminating NUL. `std::map` is a list of keys and
-- values; its order is not observed. A `char` is signed, as on the platforms the library names.
use xmlbeansxx.Prelude.{
  ℕ, ◌+◌, ◌-◌, ◌*◌, ◌%◌, ◌^◌, List, [], ◌∷◌, ◌++◌, Option, none, some, Bool, true, false, ◌==◌, ltb,
  if◌then◌else◌, Text, text_eq, length,
}

-- `fault` is undefined behaviour: a null or dangling pointer followed, an index out of range.
pub data Result {ℓ} (A : Type ℓ) : Type ℓ where
  ok : A → Result A
  illegal_state : Result A
  fault : Result A

infixl 5 ◌>>=◌
abbrev pub ◌>>=◌ {ℓ κ} : {A : Type ℓ} {B : Type κ} → Result A → (A → Result B) → Result B
ok a >>= f = f a
illegal_state >>= f = illegal_state
fault >>= f = fault

-- What `c_str()` shows of a `std::string`: the bytes before the first NUL.
unfoldable pub cut : Text → Text
cut [] = []
cut (c ∷ s) = let rest = cut s in if c == 0 then [] else c ∷ rest

-- `duplicate` of a C string at the address that `operator new` gave: an odd one is refused.
unfoldable pub duplicate : ℕ → Text → Result Text
duplicate a str = if a % 2 == 0 then ok str else illegal_state

-- `(unsigned int)(*str)` of a signed byte.
abbrev pub as_unsigned : ℕ → ℕ
as_unsigned c = if ltb c 128 then c else c + 2 ^ 32 - 256

-- `CStrHashFn`, in 32-bit arithmetic.
unfoldable pub hash_loop : ℕ → Text → ℕ
hash_loop v [] = v
hash_loop v (c ∷ s) = hash_loop ((v + as_unsigned c * 31) % 2 ^ 32) s

unfoldable pub hash_fn : Text → ℕ
unfolding hash_loop
hash_fn s = hash_loop 0 s

pub record SsInfo : Type 0 where
  pub str : Text
  pub hash_code : ℕ

pub record StringStorage : Type 0 where
  pub contents : List (Text × ℕ)
  pub stored : List SsInfo

-- `std::map::find` and `insert`, which leaves a key that is there alone.
unfoldable pub map_find : Text → List (Text × ℕ) → Option ℕ
map_find k [] = none
map_find k ((j, v) ∷ m) = if text_eq j k then some v else map_find k m

unfoldable pub map_insert : Text → ℕ → List (Text × ℕ) → List (Text × ℕ)
map_insert k v [] = (k, v) ∷ []
map_insert k v ((j, u) ∷ m) = if text_eq j k then (j, u) ∷ m else (j, u) ∷ map_insert k v m

abbrev found : Option ℕ → Bool
found none = false
found (some b) = true

-- `isStored`.
unfoldable pub is_stored_text : StringStorage → Text → Bool
unfolding map_find
is_stored_text st str = found (map_find str st.contents)

-- The mapped word, or 0 for a key that is not there.
abbrev pub word_of : Option ℕ → ℕ
word_of none = 0
word_of (some b) = b

unfoldable pub get : StringStorage → Text → ℕ
get st str = word_of (map_find str st.contents)

-- A null pointer is read as the empty string.
abbrev pub from_null : Option Text → Text
from_null none = []
from_null (some cs) = cs

-- `add(const char *)`, with the address of the copy that it makes.
unfoldable pub add : StringStorage → ℕ → Option Text → Result StringStorage
unfolding is_stored_text duplicate map_insert map_find
add st a cs = if is_stored_text st (from_null cs) then ok st else (do
  s ← duplicate a (from_null cs)
  ok (record {
    contents = map_insert s (2 * length st.stored + 1) st.contents;
    stored = st.stored ++ record { str = s; hash_code = hash_fn s } ∷ [];
  }))

-- `StringStorage()`: the empty string comes first.
unfoldable pub new_storage : ℕ → Result StringStorage
unfolding add
new_storage a = add (record { contents = []; stored = [] }) a (some [])

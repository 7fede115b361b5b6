-- ===== src/StoreString.antt =====
-- Interned strings: src/xmlbeansxx/StoreString.h and StoreString.cpp.
-- `buf` is one machine word: an odd word is an index into the table of stored strings (2 * i + 1),
-- an even one the address of a heap copy that the object owns, and 0 no string. The world holds
-- the table (`getStorage()`), the heap copies by address and the `buf` of each object, so that
-- aliasing of objects is seen. The address that `operator new` returns is an argument `a`.
pub mod Storage
pub mod Table
pub mod Interning
pub mod Objects
pub mod Store
mod Examples
use xmlbeansxx.Prelude.{
  ℕ, ◌+◌, ◌*◌, ◌/◌, ◌%◌, Option, none, some, Bool, true, false, not, ◌&&◌, ◌==◌, if◌then◌else◌,
  Text, [], get_elem?, text_eq,
}
use xmlbeansxx.StoreString.Storage.{
  StringStorage, SsInfo, Result, ok, illegal_state, fault, ◌>>=◌, cut, duplicate, hash_fn, get, add,
}

pub record World : Type 0 where
  pub storage : StringStorage
  pub cells : ℕ → Option Text
  pub bufs : ℕ → ℕ

abbrev pub update {ℓ} : {B : Type ℓ} → (ℕ → B) → ℕ → B → ℕ → B
update f k v j = if k == j then v else f j

abbrev pub set_buf : World → ℕ → ℕ → World
set_buf w x b = record w { bufs = update w.bufs x b }

-- `((unsigned long)buf)&1`
unfoldable pub is_stored : ℕ → Bool
is_stored b = b % 2 == 1

-- `stored[index/2]`, a fault out of range.
abbrev info_at : Option SsInfo → Result SsInfo
info_at none = fault
info_at (some i) = ok i

-- A read of the heap copy at an address: a fault at the null pointer and at a freed address.
abbrev cell_at : Option Text → Result Text
cell_at none = fault
cell_at (some t) = ok t

unfoldable pub c_str : World → ℕ → Result Text
c_str w x =
    let b = w.bufs x in
    if is_stored b
    then (do i ← info_at (get_elem? w.storage.stored (b / 2)); ok i.str)
    else if b == 0
    then fault
    else cell_at (w.cells b)

unfoldable pub hash_code : World → ℕ → Result ℕ
hash_code w x =
    let b = w.bufs x in
    if is_stored b
    then (do i ← info_at (get_elem? w.storage.stored (b / 2)); ok i.hash_code)
    else if b == 0
    then fault
    else (do t ← cell_at (w.cells b); ok (hash_fn t))

-- `free`: an owned copy is deleted, and `buf` is 0 after it.
unfoldable pub free : World → ℕ → World
free w x =
    let b = w.bufs x in
    let kept = set_buf w x 0 in
    if not (is_stored b) && not (b == 0)
    then record kept { cells = update w.cells b none }
    else kept

-- `construct` once the old string is freed: the index if the text is in the table, or else a copy
-- at the address `a`.
unfoldable pub place : World → ℕ → ℕ → Text → Result World
place w x a s =
    let b = get w.storage s in
    if b == 0
    then (do t ← duplicate a s; ok (record (set_buf w x a) { cells = update w.cells a (some t) }))
    else ok (set_buf w x b)

unfoldable pub construct : World → ℕ → ℕ → Text → Result World
construct w x a str = place (free w x) x a (cut str)

-- `copyFrom`: the object `x` takes the string of the object `y`.
unfoldable pub copy_from : World → ℕ → ℕ → ℕ → Result World
copy_from w x y a =
    let w' = free w x in
    if is_stored (w'.bufs y)
    then ok (set_buf w' x (w'.bufs y))
    else (do t ← c_str w' y; construct w' x a t)

-- `operator=`.
unfoldable pub assign : World → ℕ → ℕ → ℕ → Result World
assign w x y a = copy_from (free w x) x y a

-- The constructors start from `buf=0`.
unfoldable pub of_text : World → ℕ → ℕ → Text → Result World
of_text w x a str = construct (set_buf w x 0) x a str

unfoldable pub of_store_string : World → ℕ → ℕ → ℕ → Result World
of_store_string w x y a = copy_from (set_buf w x 0) x y a

-- `operator==`: words are compared if both are indices, and C strings otherwise.
unfoldable pub store_string_eq : World → ℕ → ℕ → Result Bool
store_string_eq w x y =
    if is_stored (w.bufs x) && is_stored (w.bufs y)
    then ok (w.bufs x == w.bufs y)
    else (do s ← c_str w x; t ← c_str w y; ok (text_eq s t))

-- `StoreString::store(const std::string &)`: the table is given the text, at the address `a`, and
-- a new object `x` then finds it there.
unfoldable pub store : World → ℕ → ℕ → Text → Result World
store w x a str = do
  storage' ← add w.storage a (some (cut str))
  of_text (record w { storage = storage' }) x a str

-- ===== src/StoreString/Examples.antt =====
-- Runs of interned strings, and the theorems at a concrete world.
use xmlbeansxx.Prelude.{
  ℕ, ◌≡◌, refl, none, some, true, false, [], ◌∷◌, codes, text_eq, Text, Option, if◌then◌else◌, ◌==◌,
  inl, arith,
}
use xmlbeansxx.StoreString.Storage.{
  ok, StringStorage, cut, duplicate, hash_loop, hash_fn, map_find, map_insert, is_stored_text, get,
  add, new_storage,
}
use xmlbeansxx.StoreString.{
  World, is_stored, c_str, hash_code, free, place, construct, copy_from, assign, of_text,
  of_store_string, store_string_eq, store,
}
use xmlbeansxx.StoreString.Table.{StorageOk, AddEnds, AddEnds-add}
use xmlbeansxx.StoreString.Interning.{store_string_eq-text_eq}
use xmlbeansxx.StoreString.Objects.{Returns, Both, c_str-assign}
use xmlbeansxx.StoreString.Store.{Interned, store-Interned}

operations : Unit {0}
unfolding cut duplicate hash_loop hash_fn map_find map_insert is_stored_text get add new_storage
    is_stored c_str hash_code free place construct copy_from assign of_text of_store_string
    store_string_eq store text_eq
operations = tt

-- A table of the empty string and "ns"; object 1 is interned, 2 owns the copy "ns" at 64, and 3
-- owns "ns" too, at 80.
abbrev table : StringStorage
table = record {
  contents = ([], 1) ∷ (codes "ns", 3) ∷ [];
  stored = record { str = []; hash_code = 0 } ∷ record { str = codes "ns"; hash_code = 6975 } ∷ [];
}

abbrev cells_of : ℕ → Option Text
cells_of p = if p == 64 then some (codes "ns") else if p == 80 then some (codes "po") else none

abbrev bufs_of : ℕ → ℕ
bufs_of x =
    if x == 1 then 3 else if x == 2 then 64 else if x == 3 then 80 else if x == 4 then 3 else 0

abbrev world : World
world = record { storage = table; cells = cells_of; bufs = bufs_of }

table-StorageOk : StorageOk table
unfolding operations
table-StorageOk = record { mirror = refl; distinct = ((refl, tt), refl, (tt, refl, tt)) }

table_built : add table 96 none ≡ ok table
unfolding operations
table_built = refl

mixed_eq : (store_string_eq world 1 2 ≡ ok true) × (store_string_eq world 2 3 ≡ ok false)
unfolding operations
mixed_eq = (refl, refl)

-- A NUL ends the text that is kept.
cut_run : Returns (λ w. c_str w 5 ≡ ok (codes "a")) (of_text world 5 96 (97 ∷ 0 ∷ 98 ∷ []))
unfolding operations
cut_run = refl

store_string_eq-text_eq_example : store_string_eq world 1 4 ≡ ok (text_eq (codes "ns") (codes "ns"))
unfolding operations
store_string_eq-text_eq_example =
    store_string_eq-text_eq world 1 4 (codes "ns") (codes "ns") table-StorageOk refl refl

AddEnds-add_example : AddEnds table (codes "po") (add table 96 (some (codes "po")))
AddEnds-add_example = AddEnds-add table 96 (some (codes "po")) table-StorageOk (omega arith)

c_str-assign_example : Returns (Both 3 2 (codes "ns")) (assign world 3 2 96)
unfolding operations
c_str-assign_example =
    c_str-assign world 3 2 96 (codes "ns") table-StorageOk (omega arith) (omega arith) (omega arith)
      (omega arith) (inl (omega arith)) refl refl

store-Interned_example : Returns (Interned 5 (cut (codes "po"))) (store world 5 96 (codes "po"))
store-Interned_example = store-Interned world 5 96 (codes "po") table-StorageOk (omega arith)

-- ===== src/StoreString/Store.antt =====
-- `StoreString::store`: the object that it makes is interned.
use xmlbeansxx.Prelude.{ℕ, ◌%◌, ◌≡◌, some, true, Text, arith}
use xmlbeansxx.StoreString.Storage.{
  Result, ok, illegal_state, fault, ◌>>=◌, StringStorage, cut, add, map_find,
}
use xmlbeansxx.StoreString.Table.{StorageOk, AddEnds, AddEnds-add}
use xmlbeansxx.StoreString.{World, is_stored, c_str, free, place, construct, of_text, store}
use xmlbeansxx.StoreString.Objects.{Returns, found_word, place-found, c_str-indexed, free_storage}

-- What `store` makes of an object: its word is an index, its text is the one given, and the table
-- is still good.
pub record Interned (x : ℕ) (s : Text) (w : World) : Type 0 where
  pub indexed : is_stored (w.bufs x) ≡ true
  pub text_is : c_str w x ≡ ok s
  pub good : StorageOk w.storage

place-Interned :
    (w : World) (x a b : ℕ) (s : Text)
    → StorageOk w.storage
    → map_find s w.storage.contents ≡ some b
    → Returns (Interned x s) (place w x a s)
unfolding is_stored
place-Interned w x a b s g e =
    let p = found_word w.storage s b g e in
    rw (place-found w x a b s e (omega (arith, p.word)))
      (record { indexed = ground (arith, p.word); text_is = c_str-indexed w x b s p; good = g })

construct-Interned :
    (w : World) (x a b : ℕ) (str : Text)
    → StorageOk w.storage
    → map_find (cut str) w.storage.contents ≡ some b
    → Returns (Interned x (cut str)) (construct w x a str)
unfolding construct
construct-Interned w x a b str g e =
    place-Interned (free w x) x a b (cut str) (rw (free_storage w x) g) (rw (free_storage w x) e)

after_add :
    (w : World) (x a : ℕ) (str : Text) (r : Result StringStorage)
    → AddEnds w.storage (cut str) r
    → Returns
        (Interned x (cut str))
        (r >>= λ storage'. of_text (record w { storage = storage' }) x a str)
unfolding of_text
after_add w x a str (ok st') h = construct-Interned _ x a h.word str h.good h.finds
after_add w x a str illegal_state h = h
after_add w x a str fault h = h

-- `store` always returns at an even address, and gives an interned object with the text up to its
-- first NUL.
pub store-Interned :
    (w : World) (x a : ℕ) (str : Text)
    → StorageOk w.storage
    → a % 2 ≡ 0
    → Returns (Interned x (cut str)) (store w x a str)
unfolding store
store-Interned w x a str g even =
    after_add w x a str (add w.storage a (some (cut str)))
      (AddEnds-add w.storage a (some (cut str)) g even)

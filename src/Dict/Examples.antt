-- ===== src/Dict/Examples.antt =====
-- Runs of the dictionary's operations, and its theorems at a concrete dictionary.
use xmlbeansxx.Prelude.{ℕ, [], ◌∷◌, ◌≡◌, refl, some, none, pos, negsuc, codes, text_eq}
use xmlbeansxx.QName.{QName, qname, qname_eq}
use xmlbeansxx.Dict.{ElemDict, dict_el, find, count, add, set_at, del, remove_at, has_empty_content}
use xmlbeansxx.Dict.Values.{values, find-set_at, values-set_at, values-remove_at, set_padded}
use xmlbeansxx.Dict.Delete.{keep, del-keep}

abbrev item : QName
item = qname (codes "urn:po") (codes "item")

abbrev note : QName
note = qname (codes "urn:po") (codes "note")

-- Two items around a note; pointers are numbers.
abbrev order : ElemDict ℕ
order = dict_el item (some 1) ∷ dict_el note (some 2) ∷ dict_el item (some 3) ∷ []

operations : Unit {0}
unfolding find count add set_at del remove_at has_empty_content values keep qname_eq text_eq
operations = tt

del_run : (del order item).0 ≡ dict_el note (some 2) ∷ []
unfolding operations
del_run = refl

-- Position 3 is past the two items: a null pointer is put in at position 2.
set_at_run : values (set_at order item (pos 3) (some 9)) item ≡ some 1 ∷ some 3 ∷ none ∷ some 9 ∷ []
unfolding operations
set_at_run = refl

negative_index : (find order item (negsuc 0)).value ≡ none
unfolding operations
negative_index = refl

remove_at_run : remove_at order item (pos 1) ≡ dict_el item (some 1) ∷ dict_el note (some 2) ∷ []
unfolding operations
remove_at_run = refl

del-keep_example : del order item ≡ (keep order item, count order item)
del-keep_example = del-keep order item

find-set_at_example : (find (set_at order item (pos 1) (some 9)) item (pos 1)).value ≡ some 9
unfolding operations
find-set_at_example = find-set_at order item item 1 1 (some 9)

values-set_at_example :
    values (set_at order item (pos 3) (some 9)) item ≡ set_padded (some 1 ∷ some 3 ∷ []) 3 (some 9)
unfolding operations
values-set_at_example = values-set_at order item item 3 (some 9)

values-remove_at_example : values (remove_at order item (pos 0)) item ≡ some 3 ∷ []
unfolding operations
values-remove_at_example = values-remove_at order item item 0

-- ===== src/Arrays/Examples.antt =====
-- Arrays of small heaps.
use xmlbeansxx.Prelude.{ℕ, ◌≡◌, refl, [], ◌∷◌, none, some}
use xmlbeansxx.Dict.{dict_el}
use xmlbeansxx.Heap.{Node, Heap, plain_node, update}
use xmlbeansxx.Arrays.{element_name}
use xmlbeansxx.Arrays.Items.{ItemAppended, append-ItemAppended, Copied, xmlarray_java_cast-Copied}
use xmlbeansxx.Arrays.Shared.{
  begin, current, next, to_vector, to_shared_array, to_vector-to_shared_array,
}

-- An array of two items, one of them without contents.
abbrev two_items : Node
two_items = record (plain_node 7) {
  elems = dict_el element_name (some 3) ∷ dict_el element_name none ∷ [];
}

abbrev heap : Heap
heap = record { cell = update (λ p. none) 0 two_items; next = 1 }

append-ItemAppended_example : ItemAppended (λ a. a) 0 (some 4) two_items heap
append-ItemAppended_example =
    append-ItemAppended (λ a. a) 0 (some 4) heap two_items (unfold update in refl) refl

xmlarray_java_cast-Copied_example : Copied (λ a. a) (λ a. a) (λ a. a) 7 0 two_items heap
xmlarray_java_cast-Copied_example =
    xmlarray_java_cast-Copied (λ a. a) (λ a. a) (λ a. a) 7 0 heap two_items (unfold update in refl)
      (unfold update in refl) refl

to_vector-to_shared_array_example :
    to_vector {T = ℕ} 0 (to_shared_array 0 (5 ∷ 6 ∷ [])) ≡ 0 ∷ 0 ∷ 5 ∷ 6 ∷ []
to_vector-to_shared_array_example = to_vector-to_shared_array {T = ℕ} 0 (5 ∷ 6 ∷ [])

second_item : current {T = ℕ} (next (begin (5 ∷ 6 ∷ []))) ≡ some 6
unfolding current next begin
second_item = refl

-- ===== src/Cursor/Examples.antt =====
-- Runs of `XmlCursor` on a small document: a root with an element, whose node has an attribute
-- and a text.
use mathlib.Core.Option.{none-ne-some, some-injective}
use xmlbeansxx.Prelude.{
  ℕ, zero, suc, ◌<◌, ◌+◌, ◌≡◌, ◌≢◌, refl, ap, sym, subst, [], ◌∷◌, Option, none, some, true, false,
  if◌then◌else◌, ◌==◌, get_elem?, codes, pos, negsuc, text_eq, arith,
}
use xmlbeansxx.QName.{QName, qname, qname_eq}
use xmlbeansxx.Dict.{dict_el}
use xmlbeansxx.Heap.{Node, Heap, ok, fault, plain_node, text_node, bad_pointer}
use xmlbeansxx.Contents.{text_element_name}
use xmlbeansxx.Cursor.{
  Cursor, int_enddoc, int_start, int_end, int_text, int_attr, get_attribute_type, get_element_type,
  new_cursor, token_at, count_all, at_pos,
}
use xmlbeansxx.Cursor.Moves.{value_at}
use xmlbeansxx.Cursor.Track.{IsClosed, OnTrack, ThereAndBack, to_next_token-ThereAndBack}
use xmlbeansxx.Cursor.Reading.{Below, Reads, tokens_after, node_tokens}
use xmlbeansxx.Cursor.Order.{document_tokens, AtEnd, to_next_token-document_tokens}
use xmlbeansxx.Cursor.Jumps.{
  not_text, jumped, scan, child_by, sibling_by, to_next_sibling, scan_back, to_prev_sibling,
  to_last_child, to_prev_attribute, outermost, to_start_doc,
}
use xmlbeansxx.Cursor.Jumps.Siblings.{matches, child_by-sibling_by}
use xmlbeansxx.Cursor.Edits.{insert_attribute_with_value}
use xmlbeansxx.Cursor.Edits.RoundTrip.{InsertedAndRemoved, remove_xml-insert_element}

abbrev item_name : QName
item_name = qname [] (codes "item")

abbrev item : Node
item = record (plain_node 0) {
  attrs = dict_el (qname [] (codes "id")) (some 2) ∷ [];
  elems = dict_el text_element_name (some 3) ∷ [];
}

abbrev root : Node
root = record (plain_node 0) { elems = dict_el item_name (some 1) ∷ [] }

abbrev cells : ℕ → Option Node
cells zero = some root
cells (suc zero) = some item
cells (suc (suc zero)) = some (text_node 0 (codes "7"))
cells (suc (suc (suc zero))) = some (text_node 0 (codes "hi"))
cells (suc (suc (suc (suc p)))) = none

abbrev document : Heap
document = record { cell = cells; next = 4 }

document_tokens-run :
    document_tokens document 2 0 ≡ int_start ∷ int_attr ∷ int_text ∷ int_end ∷ int_enddoc ∷ []
unfolding document_tokens node_tokens tokens_after token_at get_attribute_type get_element_type
    qname_eq text_eq
document_tokens-run = refl

root_values : (i q : ℕ) → i < count_all root → value_at root i ≡ some q → q ≡ 1
unfolding get_attribute_type get_element_type qname_eq text_eq
root_values zero q h e = sym (some-injective 1 q e)
root_values (suc i) q h e = absurd (omega arith)

item_values : (i q : ℕ) → i < count_all item → value_at item i ≢ some q
unfolding get_attribute_type get_element_type qname_eq text_eq
item_values zero q h e = none-ne-some q e
item_values (suc zero) q h e = none-ne-some q e
item_values (suc (suc i)) q h e = omega arith

document-IsClosed : IsClosed document
document-IsClosed zero n i q at h e =
    let is_root = some-injective root n at in
    (
      item,
      ap cells (
          root_values i q (subst (λ n. i < count_all n) (sym is_root) h)
            (subst (λ n. value_at n i ≡ some q) (sym is_root) e)),
    )
document-IsClosed (suc zero) n i q at h e =
    let is_item = some-injective item n at in
    absurd (
      item_values i q (subst (λ n. i < count_all n) (sym is_item) h)
        (subst (λ n. value_at n i ≡ some q) (sym is_item) e))
document-IsClosed (suc (suc zero)) n i q at h e =
    let is_text = some-injective (text_node 0 (codes "7")) n at in
    absurd (nothing i (subst (λ n. i < count_all n) (sym is_text) h))
  where
    nothing : (i : ℕ) → ¬ (i < 0)
    nothing i h = omega arith
document-IsClosed (suc (suc (suc zero))) n i q at h e =
    let is_text = some-injective (text_node 0 (codes "hi")) n at in
    absurd (nothing i (subst (λ n. i < count_all n) (sym is_text) h))
  where
    nothing : (i : ℕ) → ¬ (i < 0)
    nothing i h = omega arith
document-IsClosed (suc (suc (suc (suc p)))) n i q at h e = absurd (none-ne-some n at)

document-Below : Below document 2 0
document-Below = (
  root,
  refl,
  λ i q h e.
      subst (Below document 1) (sym (root_values i q h e))
        (item, refl, λ j r k d. absurd (item_values j r k d)),
)

to_next_token-document_tokens_example :
    (c : Cursor) × Reads document (new_cursor 0) (document_tokens document 2 0) c
    × AtEnd document 0 c
to_next_token-document_tokens_example = to_next_token-document_tokens document 2 0 document-Below

-- The cursor at the end of the element.
abbrev end_of_item : Cursor
end_of_item = record { contents = 1; position = pos 2; stack = (pos 0, 0) ∷ [] }

end_on_track : OnTrack document end_of_item
unfolding get_attribute_type get_element_type qname_eq text_eq
end_on_track = record {
  node = item;
  node_at = refl;
  inside = omega arith;
  stacked = ((root, refl, omega arith, refl), tt);
}

to_next_token-ThereAndBack_example : ThereAndBack document end_of_item item
unfolding end_on_track
to_next_token-ThereAndBack_example =
    to_next_token-ThereAndBack document end_of_item document-IsClosed end_on_track (λ wrong. wrong)

-- Two elements with a text between them.
abbrev brothers : Node
brothers = record (plain_node 0) {
  elems =
      dict_el item_name (some 1)
      ∷ dict_el text_element_name (some 3)
      ∷ dict_el item_name (some 2)
      ∷ [];
}

abbrev family : Heap
family = record { cell = λ p. if p == 0 then some brothers else none; next = 4 }

abbrev at_zero : Cursor
at_zero = record { contents = 0; position = pos 0; stack = [] }

child_by-sibling_by_example :
    (child_by not_text at_zero (pos 1) family
      ≡ (ok (jumped at_zero (get_elem? (matches not_text brothers.elems 0) 0)), family))
    × ((i : ℕ)
        → get_elem? (matches not_text brothers.elems 0) 0 ≡ some i
        → sibling_by not_text (at_pos at_zero (pos i)) (pos 1) family ≡ (
          ok (
              jumped
                (at_pos at_zero (pos i))
                (get_elem? (matches not_text brothers.elems 0) (suc (0 + 0)))),
          family,
        ))
child_by-sibling_by_example = child_by-sibling_by not_text at_zero family brothers 0 0 refl

next_child-run :
    to_next_sibling at_zero (pos 1) family ≡ (ok (true, at_pos at_zero (pos 2)), family)
unfolding sibling_by scan qname_eq text_eq
next_child-run = refl

-- The children before one: an element at position 1 has its sibling at position 0 passed over,
-- and a single child is not found as the last.
prev_sibling-run :
    to_prev_sibling (at_pos at_zero (pos 2)) (pos 1) family
    ≡ (ok (true, at_pos at_zero (pos 0)), family)
unfolding to_prev_sibling scan_back qname_eq text_eq
prev_sibling-run = refl

prev_sibling_missed-run :
    to_prev_sibling (at_pos at_zero (pos 1)) (pos 1) family
    ≡ (ok (false, at_pos at_zero (pos 1)), family)
unfolding to_prev_sibling
prev_sibling_missed-run = refl

last_child_missed-run : to_last_child (new_cursor 0) document ≡ (ok (false, new_cursor 0), document)
unfolding to_last_child to_prev_sibling new_cursor
last_child_missed-run = refl

-- From before the document toPrevAttribute goes on to position -2, and an insertion of an
-- attribute is before the begin of the vector.
prev_attribute-run :
    to_prev_attribute (at_pos (new_cursor 1) (negsuc 0)) document
    ≡ (ok (true, at_pos (new_cursor 1) (negsuc 1)), document)
unfolding to_prev_attribute new_cursor
prev_attribute-run = refl

insert_attribute-run :
    insert_attribute_with_value (new_cursor 0) item_name (some 2) document
    ≡ (fault bad_pointer, document)
unfolding insert_attribute_with_value new_cursor
insert_attribute-run = refl

start_doc-run : to_start_doc end_of_item ≡ at_zero
unfolding to_start_doc outermost
start_doc-run = refl

remove_xml-insert_element_example : InsertedAndRemoved at_zero item_name (some 2) document 0
remove_xml-insert_element_example =
    remove_xml-insert_element at_zero item_name (some 2) document root 0 refl (omega arith) refl

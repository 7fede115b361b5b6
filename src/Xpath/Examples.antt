-- ===== src/Xpath/Examples.antt =====
-- Runs of paths and patterns.
use xmlbeansxx.Prelude.{
  ℕ, zero, suc, ◌≤◌, ◌≡◌, refl, ◌++◌, [], ◌∷◌, Option, some, true, false, codes, length, text_eq,
}
use xmlbeansxx.QName.{QName, qname, qname_eq}
use xmlbeansxx.Dict.{dict_el}
use xmlbeansxx.NsMap
use xmlbeansxx.Heap.{Node, Heap, ok, fault, beans_exception, bad_pointer, plain_node, and_then}
use xmlbeansxx.Contents
use xmlbeansxx.Walker.{get_elems, get_attr_objects}
use xmlbeansxx.Fields.{split_at, read_int, scan_digits}
use xmlbeansxx.Xpath.Pattern.{
  tokenize_loop, tokenize, strip, after_find, match_all, match_qname_string,
}
use xmlbeansxx.Xpath.Prologue.{scan_words, words, get_uri, set_ns, prologue, set_xpath_namespaces}
use xmlbeansxx.Xpath.{
  add_xml_object, get_xpath_part, get_xpath_predicat, get_qname_string, get_qname_string_with_star,
  skip_space, leading_digits, read_pos, do_predicat, add_matching, select_each, do_part,
  get_path_loop, get_path, select_path,
}
use xmlbeansxx.Xpath.Glob.{Fits, match_qname_string-Fits}
use xmlbeansxx.Xpath.Steps.{get_path-append}

two_stars-run : match_qname_string (codes "first-name") (tokenize (codes "f*-n*") b'*') ≡ true
unfolding match_qname_string tokenize tokenize_loop split_at strip after_find match_all
two_stars-run = refl

match_qname_string-Fits_example : Fits (codes "f*-n*") (codes "first-name")
match_qname_string-Fits_example =
    match_qname_string-Fits (codes "f*-n*") (codes "first-name") two_stars-run

-- Each piece is looked for at its first place only: the name fits, and is not matched.
first_place-run : match_qname_string (codes "abb") (tokenize (codes "a*b") b'*') ≡ false
unfolding match_qname_string tokenize tokenize_loop split_at strip after_find match_all
first_place-run = refl

abbrev item_name : QName
item_name = qname [] (codes "item")

abbrev root : Node
root = record (plain_node 0) {
  elems =
      dict_el item_name (some 1)
      ∷ dict_el (qname [] (codes "other")) (some 2)
      ∷ dict_el item_name (some 1)
      ∷ [];
}

abbrev item : Node
item = record (plain_node 0) { attrs = dict_el (qname [] (codes "id")) (some 2) ∷ [] }

abbrev cells : ℕ → Option Node
cells zero = some root
cells (suc zero) = some item
cells (suc (suc p)) = some (plain_node 0)

abbrev document : Heap
document = record { cell = cells; next = 5 }

get_path-append_example :
    (get_path [] (codes "item" ++ b'/' ∷ codes "@id") (0 ∷ []) document
      ≡ and_then (get_path [] (codes "item") (0 ∷ []) document) (get_path [] (codes "@id")))
    × ((fuel : ℕ)
        → length (codes "item") ≤ fuel
        → get_path_loop fuel [] (codes "item") (0 ∷ []) document
          ≡ get_path [] (codes "item") (0 ∷ []) document)
get_path-append_example = get_path-append [] (codes "item") (codes "@id") (0 ∷ []) document

select_path-run : (select_path [] (some 0) (codes "it*/@id") document).0 ≡ ok (2 ∷ 2 ∷ [])
unfolding select_path add_xml_object get_path get_path_loop get_xpath_part get_xpath_predicat
    split_at do_part get_qname_string_with_star tokenize tokenize_loop select_each get_elems
    get_attr_objects Contents.get_elems Contents.named_elems Contents.get_attrs2 add_matching
    match_qname_string strip after_find match_all get_qname_string qname_eq text_eq do_predicat
select_path-run = refl

-- The index of a predicate is not checked against the number of objects, and counts from 0.
predicate-run : do_predicat (codes "2]") (7 ∷ 8 ∷ []) document ≡ (fault bad_pointer, document)
unfolding do_predicat read_pos skip_space leading_digits read_int scan_digits
predicate-run = refl

first_predicate-run : do_predicat (codes "1]") (7 ∷ 8 ∷ []) document ≡ (ok (8 ∷ []), document)
unfolding do_predicat read_pos skip_space leading_digits read_int scan_digits
first_predicate-run = refl

set_xpath_namespaces-run :
    set_xpath_namespaces (codes "declare namespace p='u' p:a/p:b")
    ≡ ok (codes "p:a/p:b", (codes "p", codes "u") ∷ [])
unfolding set_xpath_namespaces words scan_words prologue set_ns get_uri split_at text_eq
    NsMap.add_namespace NsMap.is_set_prefix NsMap.lookup NsMap.assign
set_xpath_namespaces-run = refl

bad_prologue-run : set_xpath_namespaces (codes "declare p") ≡ fault beans_exception
unfolding set_xpath_namespaces words scan_words prologue set_ns get_uri split_at text_eq
bad_prologue-run = refl

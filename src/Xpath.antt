-- ===== src/Xpath.antt =====
-- The paths of src/xmlbeansxx/XmlObjectXpaths.cpp: class `Path` and `selectPath`. An XmlObject is the pointer to its contents; one without
-- contents is not put into the buffer of a path. The logging is left out.
pub mod Pattern
pub mod Prologue
pub mod Glob
pub mod Steps
mod Examples
use xmlbeansxx.Prelude.{
  ℕ, zero, suc, ◌+◌, ◌-◌, List, [], ◌∷◌, ◌++◌, Option, none, some, Bool, true, false, not, ◌&&◌,
  ◌||◌, ◌==◌, ltb, leb, if◌then◌else◌, length, get_elem?, take, Text, codes, text_eq, ℤ, pos,
  negsuc,
}
use xmlbeansxx.Xpath.Pattern.{
  next_token, tokenize_loop, tokenize, strip, or_later, after_find, go_on, match_all, last_of,
  is_nil, matched, is_found, found_at_begin, match_qname_string,
}
use xmlbeansxx.Xpath.Prologue.{
  is_space, put_word, at_byte, scan_words, words, get_uri, named, set_ns, is_declare, declared,
  prologue, set_xpath_namespaces,
}
use xmlbeansxx.QName.{QName}
use xmlbeansxx.Dict.{ElemDict, DictEl}
use xmlbeansxx.NsMap.{PrefixMap, add_namespace, get_qname}
use xmlbeansxx.NsMap
use xmlbeansxx.Fields.{split_at, read_int}
use xmlbeansxx.Heap.{
  Heap, Fault, bad_pointer, beans_exception, out_of_range, not_implemented, too_deep, Return, ok,
  fault, M, ◌>>=◌, ◌>>◌, return, fail,
}
use xmlbeansxx.Walker.{get_attr_objects, get_elems}

-- The objects of a path.
abbrev pub Buffer : Type 0
Buffer = List ℕ

-- `addXmlObject`
unfoldable pub add_xml_object : Buffer → Option ℕ → Buffer
add_xml_object obj none = obj
add_xml_object obj (some o) = obj ++ o ∷ []

-- `isAttr`, of a name that is not empty.
abbrev pub is_attr : Text → Bool
is_attr [] = false
is_attr (c ∷ name) = c == b'@'

abbrev pub or_whole : Text → Option (Text × Text) → Text × Text
or_whole text none = (text, [])
or_whole text (some parts) = parts

unfoldable pub get_xpath_part : Text → Text × Text
get_xpath_part path = or_whole path (split_at b'/' path)

unfoldable pub get_xpath_predicat : Text → Text × Text
get_xpath_predicat part = or_whole part (split_at b'[' part)

unfoldable pub get_qname_string : QName → Text
get_qname_string name =
    if leb 1 (length name.namespace_uri)
    then name.namespace_uri ++ b':' ∷ name.local_part
    else name.local_part

abbrev pub string_or : Text → NsMap.Result QName → Text
string_or part (NsMap.ok name) = get_qname_string name
string_or part NsMap.beans_exception = part

abbrev pub has_colon : Text → Bool
has_colon [] = false
has_colon (c ∷ s) = c == b':' || has_colon s

-- `_getQNameStringWithStar`
unfoldable pub get_qname_string_with_star : PrefixMap → Text → Text
get_qname_string_with_star ns part =
    if has_colon part then string_or part (get_qname ns part) else part

unfoldable pub skip_space : Text → Text
skip_space [] = []
skip_space (c ∷ s) = let later = skip_space s in if is_space c then later else c ∷ s

unfoldable pub leading_digits : Text → Text
leading_digits [] = []
leading_digits (c ∷ s) =
    let later = leading_digits s in if leb b'0' c && leb c b'9' then c ∷ later else []

abbrev pub signed : Text → ℤ
signed [] = pos 0
signed (c ∷ s) =
    if c == b'-'
    then minus (read_int (leading_digits s))
    else if c == b'+'
    then read_int (leading_digits s)
    else read_int (leading_digits (c ∷ s))
  where
    minus : ℤ → ℤ
    minus (pos zero) = pos zero
    minus (pos (suc n)) = negsuc n
    minus (negsuc n) = pos (suc n)

-- `s >> pos` of an int, 0 where there are no digits.
unfoldable pub read_pos : Text → ℤ
read_pos pred = signed (skip_space pred)

-- `obj[pos]` outside of the vector is undefined.
abbrev pub at_index : Buffer → ℤ → M Buffer
at_index obj (negsuc i) = fail bad_pointer
at_index obj (pos i) = elim (get_elem? obj i) [ none ↦ fail bad_pointer | some o ↦ return (o ∷ []) ]

-- `doPredicat`
unfoldable pub do_predicat : Text → Buffer → M Buffer
do_predicat [] obj = return obj
do_predicat (c ∷ pred) obj = at_index obj (read_pos (c ∷ pred))

-- The elements that match, put behind the buffer.
unfoldable pub add_matching : List Text → ElemDict ℕ → Buffer → Buffer
add_matching tab [] found = found
add_matching tab (e ∷ elems) found = add_matching tab elems (
    if match_qname_string (get_qname_string e.name) tab
    then add_xml_object found e.value
    else found)

-- `Contents::Walker::getAttrObjects(*i)` or `getElems(*i)`
abbrev pub parts_of : Bool → ℕ → M (ElemDict ℕ)
parts_of select_attr o = if select_attr then get_attr_objects (some o) else get_elems (some o)

unfoldable pub select_each : Bool → List Text → Buffer → Buffer → M Buffer
select_each select_attr tab [] found = return found
select_each select_attr tab (o ∷ obj) found = do
  elems ← parts_of select_attr o
  select_each select_attr tab obj (add_matching tab elems found)

abbrev pub without_at : Text → Text
without_at [] = []
without_at (c ∷ name) = if c == b'@' then name else c ∷ name

unfoldable pub do_part : PrefixMap → Text → Buffer → M Buffer
do_part ns part obj =
    if is_nil part || text_eq part (codes ".")
    then return obj
    else select_each (is_attr part)
        (tokenize (get_qname_string_with_star ns (without_at part)) b'*') obj []

-- One part of a path with its predicate.
abbrev pub do_step : PrefixMap → Text → Buffer → M Buffer
do_step ns part obj =
    let pred = get_xpath_predicat part in do_part ns pred.0 obj >>= do_predicat pred.1

abbrev pub with_part :
    (Text → Buffer → M Buffer) → (Text → Buffer → M Buffer) → Text × Text → Buffer → M Buffer
with_part step later part [] = return []
with_part step later part (o ∷ obj) = step part.0 (o ∷ obj) >>= later part.1

-- `getPath`, on fuel: each call gets a shorter path.
unfoldable pub get_path_loop : ℕ → PrefixMap → Text → Buffer → M Buffer
get_path_loop fuel ns [] obj = return obj
get_path_loop zero ns (c ∷ path) obj = fail too_deep
get_path_loop (suc fuel) ns (c ∷ path) obj =
    with_part (do_step ns) (get_path_loop fuel ns) (get_xpath_part (c ∷ path)) obj

unfoldable pub get_path : PrefixMap → Text → Buffer → M Buffer
get_path ns path obj = get_path_loop (length path) ns path obj

-- `selectPath` with a map of namespaces.
unfoldable pub select_path : PrefixMap → Option ℕ → Text → M Buffer
select_path ns o path = get_path ns path (add_xml_object [] o)

-- `selectPath` of a path with its declarations.
unfoldable pub select_declared_path : Option ℕ → Text → M Buffer
select_declared_path o path = elim (set_xpath_namespaces path) [
  | fault e ↦ fail e
  | ok parts ↦ select_path parts.1 o parts.0
]

-- `cselectPath`
unfoldable pub cselect_path : PrefixMap → Option ℕ → Text → M Buffer
cselect_path ns o path = fail not_implemented

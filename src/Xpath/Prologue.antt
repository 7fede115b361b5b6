-- ===== src/Xpath/Prologue.antt =====
-- The namespace declarations before a path: class `NSMapXPath` of
-- src/xmlbeansxx/XmlObjectXpaths.cpp.
use xmlbeansxx.Prelude.{
  ℕ, ◌-◌, List, [], ◌∷◌, none, some, Bool, false, ◌&&◌, ◌||◌, ◌==◌, leb, if◌then◌else◌, length,
  take, Text, codes, text_eq,
}
use xmlbeansxx.NsMap.{PrefixMap, add_namespace}
use xmlbeansxx.Fields.{split_at}
use xmlbeansxx.Heap.{beans_exception, out_of_range, Return, ok, fault}

-- `std::isspace` of the C locale.
abbrev pub is_space : ℕ → Bool
is_space c = (c == 32) || (leb 9 c && leb c 13)

-- The words of a stream, which `ss >> s` reads one by one.
abbrev pub put_word : Text → List Text → List Text
put_word [] ws = ws
put_word (c ∷ w) ws = (c ∷ w) ∷ ws

abbrev pub at_byte : ℕ → Text × List Text → Text × List Text
at_byte c (w, ws) = if is_space c then ([], put_word w ws) else (c ∷ w, ws)

unfoldable pub scan_words : Text → Text × List Text
scan_words [] = ([], [])
scan_words (c ∷ s) = at_byte c (scan_words s)

unfoldable pub words : Text → List Text
words path = let r = scan_words path in put_word r.0 r.1

-- `getURI`: without the quotes; `substr(1, ...)` of an empty text throws.
unfoldable pub get_uri : Text → Return Text
get_uri [] = fault out_of_range
get_uri (c ∷ ns) = ok (take (length ns - 1) ns)

abbrev pub named : PrefixMap → Text → Return Text → Return PrefixMap
named m prefix (fault e) = fault e
named m prefix (ok uri) = ok (add_namespace m prefix uri false).0

unfoldable pub set_ns : PrefixMap → Text → Return PrefixMap
set_ns m ns = elim (split_at b'=' ns) [
  | none ↦ named m [] (get_uri ns)
  | some parts ↦ named m parts.0 (get_uri parts.1)
]

abbrev pub is_declare : Text → Bool
is_declare s = text_eq s (codes "declare")

abbrev pub declared :
    Text
    → Text
    → Return PrefixMap
    → (PrefixMap → Return (Text × PrefixMap))
    → PrefixMap
    → Return (Text × PrefixMap)
declared s keyword m' later m =
    if is_declare s
    then (if text_eq keyword (codes "namespace")
        then elim m' [ fault e ↦ fault e | ok n ↦ later n ]
        else fault beans_exception)
    else ok (s, m)

-- The loop of `setXPathNamespaces`. Behind the last word `ss >> s` leaves `s` as it was.
unfoldable pub prologue : Text → List Text → PrefixMap → Return (Text × PrefixMap)
prologue s [] m = if is_declare s then fault beans_exception else ok (s, m)
prologue s (w ∷ []) m = declared s w (set_ns m w) (prologue w []) m
prologue s (w ∷ v ∷ []) m = declared s w (set_ns m v) (prologue v []) m
prologue s (w ∷ v ∷ u ∷ ws) m = declared s w (set_ns m v) (prologue u ws) m

unfoldable pub set_xpath_namespaces : Text → Return (Text × PrefixMap)
set_xpath_namespaces path = elim (words path) [ [] ↦ ok ([], []) | s ∷ ws ↦ prologue s ws [] ]

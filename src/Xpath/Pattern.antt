-- ===== src/Xpath/Pattern.antt =====
-- The patterns of a path: `tokenize` and `matchQNameString` of src/xmlbeansxx/XmlObjectXpaths.cpp.
use xmlbeansxx.Prelude.{
  ℕ, zero, suc, List, [], ◌∷◌, Option, none, some, Bool, true, false, ◌||◌, ◌==◌, if◌then◌else◌,
  length, Text, text_eq,
}
use xmlbeansxx.Fields.{split_at}

-- `tokenize`, at one byte. The loop is on fuel: what is behind an occurrence is shorter.
abbrev pub next_token : (Text → List Text) → Text → Option (Text × Text) → List Text
next_token later sub none = sub ∷ []
next_token later sub (some (token, rest)) = token ∷ later rest

unfoldable pub tokenize_loop : ℕ → ℕ → Text → List Text
tokenize_loop zero t sub = sub ∷ []
tokenize_loop (suc fuel) t sub = next_token (tokenize_loop fuel t) sub (split_at t sub)

unfoldable pub tokenize : Text → ℕ → List Text
tokenize str t = tokenize_loop (length str) t str

-- What is behind a text at the begin of another.
unfoldable pub strip : Text → Text → Option Text
strip [] qn = some qn
strip (c ∷ t) [] = none
strip (c ∷ t) (d ∷ qn) = let later = strip t qn in if c == d then later else none

abbrev pub or_later : Option Text → Option Text → Option Text
or_later (some rest) later = some rest
or_later none later = later

-- `sub.find(t)` and `sub.substr(p + t.size())`: what is behind the first occurrence.
unfoldable pub after_find : Text → Text → Option Text
after_find t [] = strip t []
after_find t (c ∷ sub) = let later = after_find t sub in or_later (strip t (c ∷ sub)) later

abbrev pub go_on : (Text → Option Text) → Option Text → Option Text
go_on later none = none
go_on later (some rest) = later rest

-- The loop of `matchQNameString`: what is left of the name.
unfoldable pub match_all : List Text → Text → Option Text
match_all [] sub = some sub
match_all (t ∷ tab) sub = go_on (match_all tab) (after_find t sub)

abbrev pub last_of : List Text → Text
last_of [] = []
last_of (t ∷ []) = t
last_of (t ∷ u ∷ tab) = last_of (u ∷ tab)

abbrev pub is_nil : Text → Bool
is_nil [] = true
is_nil (c ∷ s) = false

-- `sub.size()>0` and `tab.back().size()>0`
abbrev pub matched : List Text → Option Text → Bool
matched tab none = false
matched tab (some rest) = is_nil rest || is_nil (last_of tab)

-- `qn.find(tab.front())!=0`: the first occurrence is not at the begin.
abbrev pub is_found : Option Text → Bool
is_found none = false
is_found (some rest) = true

abbrev pub found_at_begin : Text → Text → Bool
found_at_begin t qn = is_found (strip t qn)

-- The assertion that there is a token is left out: `tokenize` gives one at least.
unfoldable pub match_qname_string : Text → List Text → Bool
match_qname_string qn [] = false
match_qname_string qn (t ∷ []) = text_eq t qn
match_qname_string qn (t ∷ u ∷ tab) =
    if found_at_begin t qn then matched (t ∷ u ∷ tab) (match_all (t ∷ u ∷ tab) qn) else false

-- ===== src/NsMap.antt =====
-- `NSMap`: the namespaces that prefixes stand for. src/xmlbeansxx/NSMap.h and NSMap.cpp.
-- The `std::map` is a list in the order of its keys, which `getPrefix` and `toString` walk. A
-- namespace is the text of its StoreString.
pub mod Bindings
pub mod Resolve
mod Examples
use xmlbeansxx.Prelude.{
  ℕ, zero, suc, List, [], ◌∷◌, ◌++◌, Option, none, some, Bool, true, false, not, ◌||◌, ◌==◌,
  if◌then◌else◌, Text, codes, text_eq, text_lt,
}
use xmlbeansxx.QName.{QName, qname}

-- `beans_exception` is a throw of BeansException.
pub data Result {ℓ} (A : Type ℓ) : Type ℓ where
  ok : A → Result A
  beans_exception : Result A

infixl 5 ◌>>=◌
abbrev pub ◌>>=◌ {ℓ κ} : {A : Type ℓ} {B : Type κ} → Result A → (A → Result B) → Result B
ok a >>= f = f a
beans_exception >>= f = beans_exception

-- A prefix beside its namespace.
abbrev pub PrefixMap : Type 0
PrefixMap = List (Text × Text)

unfoldable pub lookup : Text → PrefixMap → Option Text
lookup p [] = none
lookup p ((q, ns) ∷ m) = if text_eq q p then some ns else lookup p m

-- `prefixMap[prefix]=ns`
unfoldable pub assign : Text → Text → PrefixMap → PrefixMap
assign p ns [] = (p, ns) ∷ []
assign p ns ((q, old) ∷ m) =
    let later = assign p ns m in
    if text_eq q p
    then (p, ns) ∷ m
    else if text_lt p q
    then (p, ns) ∷ (q, old) ∷ m
    else (q, old) ∷ later

unfoldable pub is_set_namespace_uri : PrefixMap → Text → Bool
is_set_namespace_uri [] ns = false
is_set_namespace_uri ((q, u) ∷ m) ns = text_eq u ns || is_set_namespace_uri m ns

abbrev pub is_some : Option Text → Bool
is_some none = false
is_some (some t) = true

unfoldable pub is_set_prefix : PrefixMap → Text → Bool
is_set_prefix m p = is_some (lookup p m)

-- The map and the answer: whether the prefix was free.
unfoldable pub add_namespace : PrefixMap → Text → Text → Bool → PrefixMap × Bool
add_namespace m p ns force =
    let retu = not (is_set_prefix m p) in (if force || retu then assign p ns m else m, retu)

abbrev pub or_throw : Option Text → Result Text
or_throw none = beans_exception
or_throw (some t) = ok t

unfoldable pub get_namespace_uri : PrefixMap → Text → Result Text
get_namespace_uri m p = or_throw (lookup p m)

-- The first prefix, in the order of the map, that stands for the namespace.
unfoldable pub get_prefix : PrefixMap → Text → Result Text
get_prefix [] ns = beans_exception
get_prefix ((q, u) ∷ m) ns = if text_eq u ns then ok q else get_prefix m ns

unfoldable pub to_string : PrefixMap → Text
to_string [] = []
to_string ((q, u) ∷ m) = (q ++ codes " => " ++ u) ++ to_string m

abbrev pub behind : ℕ → Option (Text × Text) → Option (Text × Text)
behind c none = none
behind c (some (p, rest)) = some (c ∷ p, rest)

-- `name.find(':')`, with the text on each side of it.
unfoldable pub split_colon : Text → Option (Text × Text)
split_colon [] = none
split_colon (c ∷ s) = if c == b':' then some ([], s) else behind c (split_colon s)

-- A throw is caught: a name without a prefix then has the empty namespace.
abbrev pub or_empty : Result Text → Text
or_empty (ok ns) = ns
or_empty beans_exception = []

abbrev pub name_in : PrefixMap → Text → Option (Text × Text) → Result QName
name_in m name none = ok (qname (or_empty (get_namespace_uri m [])) name)
name_in m name (some (p, rest)) = do
  ns ← get_namespace_uri m p
  ok (record { namespace_uri = ns; local_part = rest; prefix = p })

unfoldable pub get_qname : PrefixMap → Text → Result QName
get_qname m name = name_in m name (split_colon name)

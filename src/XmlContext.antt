-- ===== src/XmlContext.antt =====
-- `XmlContext`, the namespaces in scope while a document is read or written, and
-- `NSMapSerializer`, which prints names in them: src/xmlbeansxx/XmlContext.h and XmlContext.cpp.
-- The vector of links has its back first here, and the stack its top first. `none` is undefined
-- behaviour: a pop or a top of an empty stack.
pub mod Scopes
pub mod Fresh
pub mod Printing
mod Examples
use xmlbeansxx.Prelude.{
  ℕ, zero, suc, ◌+◌, ◌-◌, ◌%◌, List, [], ◌∷◌, ◌++◌, Option, none, some, Bool, true, false, not,
  ◌&&◌, if◌then◌else◌, length, take, Text, codes, text_eq,
}
use mathlib.Core.List.{reverse}
use xmlbeansxx.QName.{QName}
use xmlbeansxx.NsMap.{
  PrefixMap, Result, ok, beans_exception, ◌>>=◌, lookup, is_set_prefix, get_namespace_uri,
  get_prefix,
}
use xmlbeansxx.NsMap

pub record XmlContext : Type 0 where
  pub prefix_map : PrefixMap
  pub restore_links : List (Text × Text)
  pub remembered : List ℕ

-- What `addNamespace` puts on the vector of links: the old namespace, or the empty one.
abbrev pub old_namespace : Option Text → Text
old_namespace none = []
old_namespace (some ns) = ns

-- The context and the answer of `addNamespace`, which comes from `NSMap::addNamespace`.
unfoldable pub add_namespace : XmlContext → Text → Text → Bool → XmlContext × Bool
add_namespace c p ns force =
    let added = NsMap.add_namespace c.prefix_map p ns true in
    if is_set_prefix c.prefix_map p && not force then (c, false) else (
      record c {
        prefix_map = added.0;
        restore_links = (p, old_namespace (lookup p c.prefix_map)) ∷ c.restore_links;
      },
      added.1,
    )

unfoldable pub remember : XmlContext → XmlContext
remember c = record c { remembered = length c.restore_links ∷ c.remembered }

-- `addNamespace(restoreLinks.back()…)` and `pop_back`.
abbrev pub restore_back : XmlContext → List (Text × Text) → XmlContext
restore_back c [] = c
restore_back c ((p, ns) ∷ links) = record c {
  prefix_map = (NsMap.add_namespace c.prefix_map p ns true).0;
  restore_links = links;
}

-- One round of the loop of `restore`.
unfoldable pub restore_last : XmlContext → XmlContext
restore_last c = restore_back c c.restore_links

-- The loop runs until `position` links are left: the rounds are given.
unfoldable pub restore_loop : ℕ → XmlContext → XmlContext
restore_loop zero c = c
restore_loop (suc rounds) c = restore_loop rounds (restore_last c)

abbrev pub restore_to : XmlContext → List ℕ → Option XmlContext
restore_to c [] = none
restore_to c (position ∷ positions) = some (
    restore_loop (length c.restore_links - position)
      (record c { remembered = position ∷ positions }))

-- The position popped is dropped, and the one below it is gone back to.
abbrev pub restore_popped : XmlContext → List ℕ → Option XmlContext
restore_popped c [] = none
restore_popped c (popped ∷ positions) = restore_to c positions

unfoldable pub restore : XmlContext → Option XmlContext
restore c = restore_popped c c.remembered

abbrev pub top_or_zero : List ℕ → ℕ
top_or_zero [] = 0
top_or_zero (position ∷ positions) = position

abbrev pub with_namespaces : PrefixMap → List (Text × Text) → Result (List (Text × Text))
with_namespaces m [] = ok []
with_namespaces m ((p, old) ∷ links) = do
  ns ← get_namespace_uri m p
  rest ← with_namespaces m links
  ok ((p, ns) ∷ rest)

-- The prefixes declared since the last `remember`, oldest first, with what they stand for now.
unfoldable pub get_last_stored_links : XmlContext → Result (List (Text × Text))
get_last_stored_links c =
    with_namespaces c.prefix_map
      (reverse (take (length c.restore_links - top_or_zero c.remembered) c.restore_links))

-- The constructor.
unfoldable pub new_context : XmlContext
unfolding remember add_namespace
new_context =
    remember
      (add_namespace (remember (record { prefix_map = []; restore_links = []; remembered = [] })) []
        [] true).0

pub record NsMapSerializer : Type 0 where
  pub context : XmlContext
  pub prefix_prefix : Text
  pub current : ℕ

unfoldable pub print_prefix_name : Text → Text → Text
print_prefix_name [] name = name
print_prefix_name (c ∷ p) name = (c ∷ p) ++ b':' ∷ name

-- `prefixPrefix + char('a' + current)`
abbrev pub candidate : Text → ℕ → Text
candidate prefix_prefix n = prefix_prefix ++ ((b'a' + n) % 256) ∷ []

-- `getNextPrefix`, with the calls it may make of itself: the prefix, and `current` after it.
unfoldable pub get_next_prefix : ℕ → PrefixMap → Text → ℕ → Option (Text × ℕ)
get_next_prefix zero m prefix_prefix current = none
get_next_prefix (suc calls) m prefix_prefix current =
    let later = get_next_prefix calls m prefix_prefix (suc current) in
    if is_set_prefix m (candidate prefix_prefix current)
    then later
    else some (candidate prefix_prefix current, suc current)

-- A serializer and a printed name.
abbrev pub Printed : Type 0
Printed = NsMapSerializer × Text

-- The namespace is declared under the prefix, and the name printed.
unfoldable pub declare_and_print : NsMapSerializer → Text → QName → Printed
declare_and_print s p n = (
  record s { context = (add_namespace s.context p n.namespace_uri true).0 },
  print_prefix_name p n.local_part,
)

-- A fresh prefix is taken: `current` moves on.
abbrev pub print_fresh : NsMapSerializer → QName → Option (Text × ℕ) → Option Printed
print_fresh s n none = none
print_fresh s n (some (p, current')) =
    some (declare_and_print (record s { current = current' }) p n)

-- `getPrefix` found a prefix of the namespace, or threw.
abbrev pub print_found : ℕ → NsMapSerializer → QName → Result Text → Option Printed
print_found calls s n (ok p) = some (s, print_prefix_name p n.local_part)
print_found calls s n beans_exception =
    print_fresh s n (get_next_prefix calls s.context.prefix_map s.prefix_prefix s.current)

abbrev pub stands_for : Result Text → Text → Bool
stands_for (ok ns) u = text_eq ns u
stands_for beans_exception u = false

unfoldable pub cprint_qname : ℕ → NsMapSerializer → QName → Option Printed
cprint_qname calls s n =
    if text_eq n.namespace_uri []
    then some (s, n.local_part)
    else if stands_for (get_namespace_uri s.context.prefix_map n.prefix) n.namespace_uri
    then some (s, print_prefix_name n.prefix n.local_part)
    else if text_eq n.prefix []
    then print_found calls s n (get_prefix s.context.prefix_map n.namespace_uri)
    else some (declare_and_print s n.prefix n)

abbrev pub print_links : List (Text × Text) → Text
print_links [] = []
print_links (([], ns) ∷ links) = (codes " xmlns=\"" ++ ns ++ codes "\"") ++ print_links links
print_links ((c ∷ p, ns) ∷ links) =
    (codes " xmlns:" ++ (c ∷ p) ++ codes "=\"" ++ ns ++ codes "\"") ++ print_links links

unfoldable pub print_new_ns : NsMapSerializer → Result Text
print_new_ns s = do links ← get_last_stored_links s.context; ok (print_links links)

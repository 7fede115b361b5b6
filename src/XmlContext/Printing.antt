-- ===== src/XmlContext/Printing.antt =====
-- A name that `NSMapSerializer::cprintQName` prints is read back by `NSMap::getQName` in the
-- namespaces that stand after the printing.
use xmlbeansxx.Prelude.{
  suc, ◌+◌, ◌≤◌, ◌≡◌, refl, ap, sym, subst, ◌∙◌, [], ◌∷◌, Option, none, some, true, if◌then◌else◌,
  Bool-cases, inl, inr, length, Text, text_eq, text_eq_iff, text_eq_refl, arith,
}
use xmlbeansxx.QName.{QName}
use xmlbeansxx.NsMap.{
  PrefixMap, Result, ok, beans_exception, lookup, get_qname, get_prefix, get_namespace_uri,
  or_throw, or_empty,
}
use xmlbeansxx.NsMap.Bindings.{IsSorted, lookup-assign, lookup-get_prefix}
use xmlbeansxx.NsMap.Resolve.{NoColon, get_qname-prefixed, get_qname-plain}
use xmlbeansxx.XmlContext.{
  XmlContext, NsMapSerializer, Printed, old_namespace, add_namespace, print_prefix_name, candidate,
  declare_and_print, print_found, stands_for, cprint_qname,
}
use xmlbeansxx.XmlContext.Scopes.{declare_lem, resolve}
use xmlbeansxx.XmlContext.Fresh.{get_next_prefix-IsFresh, candidate-NoColon}

-- No prefix of the map has a colon.
abbrev pub KeysPlain : PrefixMap → Type 0
KeysPlain [] = Unit {0}
KeysPlain ((q, u) ∷ m) = NoColon q × KeysPlain m

-- What the serializer keeps: sorted prefixes without colons, and letters enough for one more.
pub record IsReady (s : NsMapSerializer) : Type 0 where
  pub sorted : IsSorted s.context.prefix_map
  pub plain : KeysPlain s.context.prefix_map
  pub plain_prefix : NoColon s.prefix_prefix
  pub letters : b'a' + s.current + suc (length s.context.prefix_map) ≤ 256

-- The name was printed under a prefix that stands for its namespace.
record Prints (n : QName) (r : Option Printed) : Type 0 where
  after : NsMapSerializer
  prefix : Text
  plain : NoColon prefix
  bound : lookup prefix after.context.prefix_map ≡ some n.namespace_uri
  returns : r ≡ some (after, print_prefix_name prefix n.local_part)

-- The reader's view of a printed name: namespace and local part are those of the name.
pub record ReadsBack (n : QName) (r : Option Printed) : Type 0 where
  pub after : NsMapSerializer
  pub text : Text
  pub prefix : Text
  pub returns : r ≡ some (after, text)
  pub reads :
      get_qname after.context.prefix_map text
      ≡ ok (record { namespace_uri = n.namespace_uri; local_part = n.local_part; prefix = prefix })

get_qname-print_prefix_name :
    (m : PrefixMap) (p s ns : Text)
    → NoColon p
    → NoColon s
    → lookup p m ≡ some ns
    → get_qname m (print_prefix_name p s)
      ≡ ok (record { namespace_uri = ns; local_part = s; prefix = p })
unfolding print_prefix_name
get_qname-print_prefix_name m [] s ns np ns' h = get_qname-plain m s ns' ∙ rw h
get_qname-print_prefix_name m (c ∷ p) s ns np ns' h = get_qname-prefixed m (c ∷ p) s ns np h

Prints-ReadsBack :
    (n : QName) (r : Option Printed) → NoColon n.local_part → Prints n r → ReadsBack n r
Prints-ReadsBack n r h p = record {
  after = p.after;
  text = print_prefix_name p.prefix n.local_part;
  prefix = p.prefix;
  returns = p.returns;
  reads = get_qname-print_prefix_name _ p.prefix n.local_part n.namespace_uri p.plain h p.bound;
}

declare_and_print-Prints :
    (s : NsMapSerializer) (p : Text) (n : QName)
    → NoColon p
    → Prints n (some (declare_and_print s p n))
unfolding declare_and_print
declare_and_print-Prints s p n h = record {
  after = record s { context = (add_namespace s.context p n.namespace_uri true).0 };
  prefix = p;
  plain = h;
  bound =
      ap (λ (c : XmlContext). lookup p c.prefix_map) (declare_lem s.context p n.namespace_uri)
      ∙ ground (arith, lookup-assign p p n.namespace_uri s.context.prefix_map, text_eq_refl p);
  returns = refl;
}

KeysPlain-get_prefix :
    (m : PrefixMap) (ns p : Text) → KeysPlain m → get_prefix m ns ≡ ok p → NoColon p
unfolding get_prefix
KeysPlain-get_prefix [] ns p k h = cc
KeysPlain-get_prefix ((q, u) ∷ m) ns p k h = elim (Bool-cases (text_eq u ns)) [
  | inl same ↦ subst NoColon (ground arith) k.0
  | inr other ↦ KeysPlain-get_prefix m ns p k.1 (ground arith)
]

print_found-Prints :
    (s : NsMapSerializer) (n : QName) (r : Result Text)
    → IsReady s
    → get_prefix s.context.prefix_map n.namespace_uri ≡ r
    → Prints n (print_found (suc (length s.context.prefix_map)) s n r)
print_found-Prints s n (ok p) ready h = record {
  after = s;
  prefix = p;
  plain = KeysPlain-get_prefix _ n.namespace_uri p ready.plain h;
  bound = lookup-get_prefix _ n.namespace_uri p ready.sorted h;
  returns = refl;
}
print_found-Prints s n beans_exception ready h =
    let f = get_next_prefix-IsFresh s.context.prefix_map s.prefix_prefix s.current ready.letters in
    rw f.returns (
      declare_and_print-Prints (record s { current = suc f.index })
        (candidate s.prefix_prefix f.index) n
        (candidate-NoColon s.prefix_prefix f.index ready.plain_prefix
          (omega (arith, f.below, ready.letters))))

default_namespace : (o : Option Text) → old_namespace o ≡ [] → or_empty (or_throw o) ≡ []
default_namespace none d = refl
default_namespace (some u) d = d

stands_for-lookup : (o : Option Text) (u : Text) → stands_for (or_throw o) u ≡ true → o ≡ some u
stands_for-lookup none u h = cc
stands_for-lookup (some v) u h = ap some ((text_eq_iff v u).0 h)

prefixed-Prints :
    (s : NsMapSerializer) (n : QName)
    → IsReady s
    → NoColon n.prefix
    → Prints n (
        if stands_for (get_namespace_uri s.context.prefix_map n.prefix) n.namespace_uri
        then some (s, print_prefix_name n.prefix n.local_part)
        else if text_eq n.prefix []
        then print_found
            (suc (length s.context.prefix_map))
            s
            n
            (get_prefix s.context.prefix_map n.namespace_uri)
        else some (declare_and_print s n.prefix n))
unfolding get_namespace_uri
prefixed-Prints s n ready np =
    elim (Bool-cases
      (stands_for (or_throw (lookup n.prefix s.context.prefix_map)) n.namespace_uri)) [
        | inl known ↦ rw known (record {
          after = s;
          prefix = n.prefix;
          plain = np;
          bound = stands_for-lookup _ n.namespace_uri known;
          returns = refl;
        })
        | inr unknown ↦ rw unknown (elim (Bool-cases (text_eq n.prefix [])) [
          | inl bare ↦ rw bare (print_found-Prints s n _ ready refl)
          | inr named ↦ rw named (declare_and_print-Prints s n.prefix n np)
        ])
      ]

plain_name-ReadsBack :
    (s : NsMapSerializer) (n : QName)
    → n.namespace_uri ≡ []
    → resolve s.context [] ≡ []
    → NoColon n.local_part
    → ReadsBack n (some (s, n.local_part))
plain_name-ReadsBack s n e d h = record {
  after = s;
  text = n.local_part;
  prefix = [];
  returns = refl;
  reads =
      get_qname-plain s.context.prefix_map n.local_part h
      ∙ ap (λ u. ok (record { namespace_uri = u; local_part = n.local_part; prefix = [] }))
          (default_namespace (lookup [] s.context.prefix_map) d ∙ sym e);
}

-- `cprintQName` returns, after at most one round of `getNextPrefix` more than there are prefixes,
-- and `getQName` reads the printed name back, to the same namespace and local part, in the
-- namespaces that stand after the printing. The prefixes, the name's prefix and its local part
-- have no colon, a new letter is at hand, and a name without a namespace is printed only where the
-- default namespace is empty.
pub cprint_qname-ReadsBack :
    (s : NsMapSerializer) (n : QName)
    → IsReady s
    → NoColon n.prefix
    → NoColon n.local_part
    → (n.namespace_uri ≡ [] → resolve s.context [] ≡ [])
    → ReadsBack n (cprint_qname (suc (length s.context.prefix_map)) s n)
unfolding cprint_qname
cprint_qname-ReadsBack s n ready np nl default = elim (Bool-cases (text_eq n.namespace_uri [])) [
  | inl none_at_all ↦
      let e = (text_eq_iff n.namespace_uri []).0 none_at_all in
      rw none_at_all (plain_name-ReadsBack s n e (default e) nl)
  | inr real ↦ rw real (Prints-ReadsBack n _ nl (prefixed-Prints s n ready np))
]

-- ===== src/NsMap/Bindings.antt =====
-- The bindings of an `NSMap`: what a prefix stands for after `addNamespace`, and the order of the
-- map, on which `getPrefix` rests.
use xmlbeansxx.Prelude.{
  ◌≡◌, ◌↔◌, refl, ap, ◌∙◌, [], ◌∷◌, none, some, Bool, true, false, not, ◌||◌, ◌&&◌, if◌then◌else◌,
  Bool-cases, inl, inr, Text, text_eq, text_eq_iff, text_eq_refl, text_eq_sym, text_lt,
  text_lt_irrefl, text_lt_trans, text_lt_total, arith,
}
use xmlbeansxx.NsMap.{
  PrefixMap, ok, beans_exception, lookup, assign, is_set_prefix, add_namespace, get_prefix,
  is_set_namespace_uri,
}

pub lookup-assign :
    (p q ns : Text) (m : PrefixMap)
    → lookup q (assign p ns m) ≡ (if text_eq p q then some ns else lookup q m)
unfolding lookup assign
lookup-assign p q ns [] = refl
lookup-assign p q ns ((r, old) ∷ m) =
    ground (arith, text_eq_iff r p, text_eq_iff r q, text_eq_iff p q, lookup-assign p q ns m)

-- `addNamespace` binds a prefix that is free, or any prefix if it is forced, says whether the
-- prefix was free, and leaves every other binding alone.
pub lookup-add_namespace :
    (m : PrefixMap) (p q ns : Text) (force : Bool)
    → (lookup q (add_namespace m p ns force).0
        ≡ (if (force || not (is_set_prefix m p)) && text_eq p q then some ns else lookup q m))
      × ((add_namespace m p ns force).1 ≡ not (is_set_prefix m p))
unfolding add_namespace
lookup-add_namespace m p q ns force = (ground (arith, lookup-assign p q ns m), refl)

-- Every key of a map lies above a bound.
abbrev pub Above : Text → PrefixMap → Type 0
Above p [] = Unit {0}
Above p ((q, ns) ∷ m) = text_lt p q ≡ true

-- The keys rise.
abbrev pub IsSorted : PrefixMap → Type 0
IsSorted [] = Unit {0}
IsSorted ((q, ns) ∷ m) = Above q m × IsSorted m

Above-assign :
    (r p ns : Text) (m : PrefixMap) → text_lt r p ≡ true → Above r m → Above r (assign p ns m)
unfolding assign
Above-assign r p ns [] h a = h
Above-assign r p ns ((q, old) ∷ m) h a = ground arith

pub assign-IsSorted : (p ns : Text) (m : PrefixMap) → IsSorted m → IsSorted (assign p ns m)
unfolding assign
assign-IsSorted p ns [] s = (tt, tt)
assign-IsSorted p ns ((q, old) ∷ m) s = elim (Bool-cases (text_eq q p)) [
  | inl same ↦ rw (same, ← (text_eq_iff q p).0 same) s
  | inr other ↦ elim (Bool-cases (text_lt p q)) [
    | inl below ↦ rw (other, below) (below, s)
    | inr above ↦
        rw (other, above)
          (
            Above-assign q p ns m (text_lt_total p q above (text_eq_sym p q ∙ other)) s.0,
            assign-IsSorted p ns m s.1,
          )
  ]
]

-- A lesser key is another key.
text_lt-text_eq : (p q : Text) → text_lt p q ≡ true → text_eq q p ≡ false
text_lt-text_eq p q h =
    ground (arith, text_eq_iff q p, text_lt_irrefl p, ap (text_lt p) {x = q} {y = p})

Above-trans : (p q : Text) (m : PrefixMap) → text_lt p q ≡ true → Above q m → Above p m
Above-trans p q [] h a = tt
Above-trans p q ((r, ns) ∷ m) h a = text_lt_trans p q r h a

lookup-Above : (p : Text) (m : PrefixMap) → Above p m → IsSorted m → lookup p m ≡ none
unfolding lookup
lookup-Above p [] a s = refl
lookup-Above p ((r, ns) ∷ m) a s =
    ground (arith, text_lt-text_eq p r a, lookup-Above p m (Above-trans p r m a s.0) s.1)

-- In a sorted map `getPrefix` inverts `getNamespaceURI`: the prefix that it gives stands for the
-- namespace.
pub lookup-get_prefix :
    (m : PrefixMap) (ns p : Text) → IsSorted m → get_prefix m ns ≡ ok p → lookup p m ≡ some ns
unfolding lookup get_prefix
lookup-get_prefix [] ns p s h = cc
lookup-get_prefix ((q, u) ∷ m) ns p s h = elim (Bool-cases (text_eq u ns)) [
  | inl same ↦ ground (arith, text_eq_iff u ns, text_eq_refl p)
  | inr other ↦ ground (
    arith,
    lookup-get_prefix m ns p s.1,
    text_eq_iff q p,
    lookup-Above q m s.0 s.1,
    ap (λ k. lookup k m) {x = q} {y = p},
  )
]

-- `getPrefix` throws exactly where no prefix stands for the namespace.
pub get_prefix-beans_exception :
    (m : PrefixMap) (ns : Text)
    → (get_prefix m ns ≡ beans_exception) ↔ (is_set_namespace_uri m ns ≡ false)
unfolding get_prefix is_set_namespace_uri
get_prefix-beans_exception [] ns = (λ _. refl, λ _. refl)
get_prefix-beans_exception ((q, u) ∷ m) ns =
    let rest = get_prefix-beans_exception m ns in (λ h. ground arith, λ h. ground arith)

-- ===== src/Parser/Returns.antt =====
-- Reasoning about callbacks that may throw: what holds of a callback where it returns, and the
-- callbacks that touch neither the stack of open elements nor the namespaces.
use xmlbeansxx.Prelude.{
  [], Option, none, some, Bool, true, false, if◌then◌else◌, ◌≡◌, refl, ap, ◌∙◌, Text,
}
use xmlbeansxx.Heap.{Heap, Return, ok, fault, M}
use xmlbeansxx.NsMap.{Result, split_colon}
use xmlbeansxx.NsMap
use xmlbeansxx.Parser.{
  State, P, and_then, ◌>>=◌, on_heap, with_heap, or_throw, namespace_uri, ns_split, qname_of_split,
  get_qname,
}

-- `Q` holds of what is returned.
abbrev pub Holds : {A : Type 0} → (A → State → Type 0) → Return A × State → Type 0
Holds Q (ok a, s) = Q a s
Holds Q (fault e, s) = Unit

-- The second state has the stack and the namespaces of the first.
pub record Same (s t : State) : Type 0 where
  pub stack : t.nodes_stack ≡ s.nodes_stack
  pub context : t.xml_context ≡ s.xml_context

pub Same-refl : (s : State) → Same s s
Same-refl s = record { stack = refl; context = refl }

pub Same-trans : {s t u : State} → Same s t → Same t u → Same s u
Same-trans h k = record { stack = k.stack ∙ h.stack; context = k.context ∙ h.context }

-- Whether the callback returns or throws.
abbrev pub Quiet : {A : Type 0} → P A → Type 0
Quiet m = (s : State) → Same s (m s).1

module _ {A : Type 0} where
  pub Quiet-on_heap : (m : M A) → Quiet (on_heap m)
  Quiet-on_heap m s = by_result (m s.heap)
    where
      by_result : (r : Return A × Heap) → Same s (with_heap s r).1
      by_result (r, h) = record { stack = refl; context = refl }

  pub Quiet-or_throw : (r : Result A) → Quiet (or_throw r)
  Quiet-or_throw (NsMap.ok a) s = Same-refl s
  Quiet-or_throw NsMap.beans_exception s = Same-refl s

  pub Holds-Quiet : (m : P A) (s : State) → Quiet m → Holds (λ _ t. Same s t) (m s)
  Holds-Quiet m s h = by_result (m s) (h s)
    where
      by_result : (r : Return A × State) → Same s r.1 → Holds (λ _ t. Same s t) r
      by_result (ok a, t) k = k
      by_result (fault e, t) k = tt

  pub Quiet-if : (b : Bool) (m k : P A) → Quiet m → Quiet k → Quiet (if b then m else k)
  Quiet-if true m k hm hk = hm
  Quiet-if false m k hm hk = hk

module _ {A B : Type 0} where
  pub Holds-bind :
      (R : A → State → Type 0) (Q : B → State → Type 0) (m : P A) (f : A → P B) (s : State)
      → Holds R (m s)
      → ((a : A) (t : State) → R a t → Holds Q (f a t))
      → Holds Q ((m >>= f) s)
  Holds-bind R Q m f s h k = by_result (m s) h
    where
      by_result : (r : Return A × State) → Holds R r → Holds Q (and_then r f)
      by_result (ok a, t) h = k a t h
      by_result (fault e, t) h = tt

  -- Where `f` keeps a promise after the first callback, so does `g`.
  pub Holds-instead :
      {C : Type 0} (R : B → State → Type 0) (Q : C → State → Type 0) (r : Return A × State)
      (f : A → P B) (g : A → P C)
      → Holds R (and_then r f)
      → ((a : A) (t : State) → Holds R (f a t) → Holds Q (g a t))
      → Holds Q (and_then r g)
  Holds-instead R Q (ok a, t) f g h k = k a t h
  Holds-instead R Q (fault e, t) f g h k = tt

  pub Quiet-bind : (m : P A) (f : A → P B) → Quiet m → ((a : A) → Quiet (f a)) → Quiet (m >>= f)
  Quiet-bind m f hm hf s = by_result (m s) (hm s)
    where
      by_result : (r : Return A × State) → Same s r.1 → Same s (and_then r f).1
      by_result (ok a, t) h = Same-trans h (hf a t)
      by_result (fault e, t) h = h

  -- A callback that is known to return comes first.
  pub bind_ok :
      (m : P A) (f : A → P B) (s : State) {a : A} {t : State}
      → m s ≡ (ok a, t)
      → (m >>= f) s ≡ f a t
  bind_ok m f s e = ap (λ r. and_then r f) e

  -- A quiet callback comes first.
  pub Holds-Quiet-bind :
      (Q : B → State → Type 0) (m : P A) (f : A → P B) (s : State)
      → Quiet m
      → ((a : A) (t : State) → Same s t → Holds Q (f a t))
      → Holds Q ((m >>= f) s)
  Holds-Quiet-bind Q m f s h k = Holds-bind (λ _ t. Same s t) Q m f s (Holds-Quiet m s h) k

pub Quiet-namespace_uri : (p : Text) → Quiet (namespace_uri p)
unfolding namespace_uri
Quiet-namespace_uri p s = Quiet-or_throw (NsMap.get_namespace_uri s.xml_context.prefix_map p) s

pub Quiet-ns_split : (str : Text) (is_attr : Bool) → Quiet (ns_split str is_attr)
unfolding ns_split
Quiet-ns_split str is_attr = by_split is_attr (split_colon str)
  where
    by_split : (b : Bool) (o : Option (Text × Text)) → Quiet (qname_of_split str b o)
    by_split true none = Same-refl
    by_split false none = Quiet-bind (namespace_uri []) _ (Quiet-namespace_uri []) (λ ns. Same-refl)
    by_split true (some (p, rest)) =
        Quiet-bind (namespace_uri p) _ (Quiet-namespace_uri p) (λ ns. Same-refl)
    by_split false (some (p, rest)) =
        Quiet-bind (namespace_uri p) _ (Quiet-namespace_uri p) (λ ns. Same-refl)

pub Quiet-get_qname :
    (p : Option Text) (localname : Text) (is_attr : Bool) → Quiet (get_qname p localname is_attr)
unfolding get_qname
Quiet-get_qname none localname true = Same-refl
Quiet-get_qname none localname false =
    Quiet-bind (namespace_uri []) _ (Quiet-namespace_uri []) (λ ns. Same-refl)
Quiet-get_qname (some p) localname is_attr =
    Quiet-bind (namespace_uri p) _ (Quiet-namespace_uri p) (λ ns. Same-refl)

-- ===== src/XmlContext/Scopes.antt =====
-- `remember` and `restore` bracket the declarations of namespaces.
use xmlbeansxx.Prelude.{
  ℕ, zero, suc, ◌+◌, ◌-◌, ◌≡◌, refl, ap, sym, ◌∙◌, subst, List, [], ◌∷◌, some, true, Bool-cases,
  inl, inr, length, Text, text_eq_iff, arith,
}
use xmlbeansxx.NsMap.{PrefixMap, lookup, assign, is_set_prefix, is_some}
use xmlbeansxx.NsMap
use xmlbeansxx.NsMap.Bindings.{lookup-assign}
use xmlbeansxx.XmlContext.{
  XmlContext, old_namespace, add_namespace, remember, restore_back, restore_last, restore_loop,
  restore_popped, restore,
}

-- What a prefix stands for, the empty namespace where nothing was declared.
abbrev pub resolve : XmlContext → Text → Text
resolve c p = old_namespace (lookup p c.prefix_map)

-- `addNamespace(prefix, ns)` with its default `force`, and a row of such calls.
abbrev pub declare : XmlContext → Text × Text → XmlContext
declare c (p, ns) = (add_namespace c p ns true).0

unfoldable pub declare_all : XmlContext → List (Text × Text) → XmlContext
declare_all c [] = c
declare_all c (d ∷ ds) = declare_all (declare c d) ds

-- The second context has the links of the first. A prefix that is declared in the first is declared
-- in the second, for the same namespace; one that is not is undeclared in the second, or stands for
-- the empty namespace.
pub record Back (c c' : XmlContext) : Type 0 where
  pub links_are : c'.restore_links ≡ c.restore_links
  pub stays : (p ns : Text) → lookup p c.prefix_map ≡ some ns → lookup p c'.prefix_map ≡ some ns
  pub resolves : (p : Text) → resolve c' p ≡ resolve c p

pub Back-refl : (c : XmlContext) → Back c c
Back-refl c = record { links_are = refl; stays = λ p ns e. e; resolves = λ p. refl }

pub Back-trans : (a b c : XmlContext) → Back a b → Back b c → Back a c
Back-trans a b c h k = record {
  links_are = k.links_are ∙ h.links_are;
  stays = λ p ns e. k.stays p ns (h.stays p ns e);
  resolves = λ p. k.resolves p ∙ h.resolves p;
}

pub declare_lem :
    (c : XmlContext) (p ns : Text)
    → declare c (p, ns) ≡ record c {
      prefix_map = assign p ns c.prefix_map;
      restore_links = (p, old_namespace (lookup p c.prefix_map)) ∷ c.restore_links;
    }
unfolding add_namespace NsMap.add_namespace
declare_lem c p ns = elim (Bool-cases (is_set_prefix c.prefix_map p)) [
  | inl set ↦ rw (set, declare)
  | inr free ↦ rw (free, declare)
]

restore_last-declare : (c : XmlContext) (d : Text × Text) → Back c (restore_last (declare c d))
unfolding restore_last NsMap.add_namespace
restore_last-declare c (p, ns) = rw (declare_lem c p ns) (record {
  links_are = refl;
  stays = λ q u e. ground (
    arith,
    lookup-assign p q (old_namespace (lookup p c.prefix_map)) (assign p ns c.prefix_map),
    lookup-assign p q ns c.prefix_map,
    text_eq_iff p q,
    ap (λ k. lookup k c.prefix_map) {x = p} {y = q},
    e,
  );
  resolves = λ q. ground (
    arith,
    lookup-assign p q (old_namespace (lookup p c.prefix_map)) (assign p ns c.prefix_map),
    lookup-assign p q ns c.prefix_map,
    text_eq_iff p q,
    ap (λ k. lookup k c.prefix_map) {x = p} {y = q},
  );
})

restore_back-Back :
    (c c' : XmlContext) (links : List (Text × Text))
    → Back c c'
    → Back (restore_back c links) (restore_back c' links)
unfolding NsMap.add_namespace
restore_back-Back c c' [] h = h
restore_back-Back c c' ((p, ns) ∷ links) h = record {
  links_are = refl;
  stays = λ q u e. ground (
    arith,
    lookup-assign p q ns c.prefix_map,
    lookup-assign p q ns c'.prefix_map,
    h.stays q u,
    e,
  );
  resolves = λ q.
      ground (
        arith,
        lookup-assign p q ns c.prefix_map,
        lookup-assign p q ns c'.prefix_map,
        h.resolves q,
      );
}

restore_loop-Back :
    (n : ℕ) (c c' : XmlContext) → Back c c' → Back (restore_loop n c) (restore_loop n c')
unfolding restore_loop restore_last
restore_loop-Back zero c c' h = h
restore_loop-Back (suc n) c c' h = restore_loop-Back n (restore_last c) (restore_last c') (
    subst (λ links. Back (restore_back c c.restore_links) (restore_back c' links)) (sym h.links_are)
      (restore_back-Back c c' c.restore_links h))

restore_back_remembered :
    (c : XmlContext) (links : List (Text × Text)) (r : List ℕ)
    → restore_back (record c { remembered = r }) links
      ≡ record (restore_back c links) { remembered = r }
restore_back_remembered c [] r = refl
restore_back_remembered c ((p, ns) ∷ links) r = refl

restore_loop_remembered :
    (n : ℕ) (c : XmlContext) (r : List ℕ)
    → restore_loop n (record c { remembered = r }) ≡ record (restore_loop n c) { remembered = r }
unfolding restore_loop restore_last
restore_loop_remembered zero c r = refl
restore_loop_remembered (suc n) c r =
    ap (restore_loop n) (restore_back_remembered c c.restore_links r)
    ∙ restore_loop_remembered n (restore_last c) r

-- `n` rounds lead from the second context back to the first.
pub Undoes : ℕ → XmlContext → XmlContext → Type 0
Undoes n c t = Back c (restore_loop n t)

pub Undoes-remembered :
    (n : ℕ) (c t : XmlContext) (r : List ℕ)
    → Undoes n c t
    → Undoes n c (record t { remembered = r })
unfolding Undoes
Undoes-remembered n c t r h =
    rw (restore_loop_remembered n t r)
      (record { links_are = h.links_are; stays = h.stays; resolves = h.resolves })

pub Undoes-declare :
    (n : ℕ) (c t : XmlContext) (d : Text × Text) → Undoes n c t → Undoes (suc n) c (declare t d)
unfolding Undoes restore_loop
Undoes-declare n c t d h =
    Back-trans c (restore_loop n t) _ h
      (restore_loop-Back n t (restore_last (declare t d)) (restore_last-declare t d))

pub Undoes-declare_all :
    (n m : ℕ) (c t : XmlContext) (ds : List (Text × Text))
    → m ≡ length ds + n
    → Undoes n c t
    → Undoes m c (declare_all t ds)
unfolding declare_all
Undoes-declare_all n m c t [] e h = let e' : m ≡ n = omega arith in rw e' h
Undoes-declare_all n m c t (d ∷ ds) e h =
    Undoes-declare_all (suc n) m c (declare t d) ds (omega arith) (Undoes-declare n c t d h)

pub declare_all_size :
    (c : XmlContext) (ds : List (Text × Text))
    → (length (declare_all c ds).restore_links ≡ length ds + length c.restore_links)
      × ((declare_all c ds).remembered ≡ c.remembered)
unfolding declare_all
declare_all_size c [] = (omega arith, refl)
declare_all_size c (d ∷ ds) =
    ground (arith, declare_all_size (declare c d) ds, declare_lem c d.0 d.1)

-- A context in which declarations were made after one `remember`, and more after a second.
abbrev pub nested : XmlContext → List (Text × Text) → List (Text × Text) → XmlContext
nested c ds ds' = declare_all (remember (declare_all (remember c) ds)) ds'

nested_remembered :
    (c : XmlContext) (ds ds' : List (Text × Text))
    → (nested c ds ds').remembered
      ≡ length (declare_all (remember c) ds).restore_links ∷ length c.restore_links ∷ c.remembered
unfolding remember
nested_remembered c ds ds' =
    (declare_all_size (remember (declare_all (remember c) ds)) ds').1
    ∙ ap (◌∷◌ (length (declare_all (remember c) ds).restore_links))
        (declare_all_size (remember c) ds).1

Undoes-nested :
    (c : XmlContext) (ds ds' : List (Text × Text))
    → Undoes (length (nested c ds ds').restore_links - length c.restore_links) c (nested c ds ds')
unfolding remember
Undoes-nested c ds ds' = Undoes-declare_all (length ds) _ c (remember inner) ds' rounds (
    Undoes-remembered (length ds) c inner _ (
      Undoes-declare_all 0 (length ds) c (remember c) ds (omega arith)
        (Undoes-remembered 0 c c _ here)))
  where
    inner : XmlContext
    inner = declare_all (remember c) ds

    rounds :
        length (nested c ds ds').restore_links - length c.restore_links ≡ length ds' + length ds
    rounds =
        omega
          (arith, (declare_all_size (remember inner) ds').0, (declare_all_size (remember c) ds).0)

    here : Undoes 0 c c
    here = unfold Undoes restore_loop in Back-refl c

pub Undoes-zero : (c c' : XmlContext) → Back c c' → Undoes 0 c c'
unfolding Undoes restore_loop
Undoes-zero c c' h = h

pub Undoes-Back : (n : ℕ) (c t t' : XmlContext) → Undoes n c t → Back t t' → Undoes n c t'
unfolding Undoes
Undoes-Back n c t t' h k = Back-trans c (restore_loop n t) _ h (restore_loop-Back n t t' k)

-- `restore` of a context that the rounds lead back from.
pub restore-Undoes :
    (n : ℕ) (c t : XmlContext) (popped : ℕ) (r : List ℕ)
    → Undoes n c t
    → length t.restore_links ≡ n + length c.restore_links
    → t.remembered ≡ popped ∷ length c.restore_links ∷ r
    → (c' : XmlContext) × (restore t ≡ some c')
      × Back c c'
      × (c'.remembered ≡ length c.restore_links ∷ r)
unfolding restore Undoes
restore-Undoes n c t popped r h size e = (
  restore_loop m (record t { remembered = r' }),
  ap (restore_popped t) e,
  subst (λ k. Back c (restore_loop k (record t { remembered = r' }))) (sym rounds)
      (Undoes-remembered n c t r' h),
  ap (λ u. u.remembered) (restore_loop_remembered m t r'),
)
  where
    r' : List ℕ
    r' = length c.restore_links ∷ r

    m : ℕ
    m = length t.restore_links - length c.restore_links

    rounds : m ≡ n
    rounds = omega (arith, size)

-- `restore` leads back to the context as it was before the last `remember` but one: it takes back
-- what was declared since the last `remember`, and what was declared before that, since the one
-- before. Every prefix stands again for what it stood for, the empty namespace if for nothing, and
-- the earlier position stays on the stack.
pub restore-nested :
    (c : XmlContext) (ds ds' : List (Text × Text))
    → (c' : XmlContext) × (restore (nested c ds ds') ≡ some c')
      × Back c c'
      × (c'.remembered ≡ length c.restore_links ∷ c.remembered)
unfolding restore
restore-nested c ds ds' = (
  restore_loop n (record t { remembered = r }),
  ap (restore_popped t) (nested_remembered c ds ds'),
  unfold Undoes in Undoes-remembered n c t r (Undoes-nested c ds ds'),
  ap (λ u. u.remembered) (restore_loop_remembered n t r),
)
  where
    t : XmlContext
    t = nested c ds ds'

    n : ℕ
    n = length t.restore_links - length c.restore_links

    r : List ℕ
    r = length c.restore_links ∷ c.remembered

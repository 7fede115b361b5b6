-- ===== src/Output/Scoped.antt =====
-- What a writer does to the namespaces: it declares some, or leaves them as they were.
use xmlbeansxx.Prelude.{
  ℕ, suc, ◌+◌, ◌≡◌, refl, ap, sym, subst, ◌∙◌, List, [], ◌∷◌, Option, none, some, Bool, true, false,
  if◌then◌else◌, length, Text, codes, text_eq, arith,
}
use xmlbeansxx.QName.{QName}
use xmlbeansxx.NsMap
use xmlbeansxx.NsMap.{get_namespace_uri, get_prefix}
use xmlbeansxx.XmlContext.{
  XmlContext, NsMapSerializer, Printed, add_namespace, remember, get_next_prefix, declare_and_print,
  print_fresh, print_found, stands_for, cprint_qname,
}
use xmlbeansxx.XmlContext.Scopes.{
  Back, Back-refl, Back-trans, Undoes, Undoes-zero, Undoes-remembered, Undoes-declare, Undoes-Back,
  restore-Undoes, declare_lem,
}
use xmlbeansxx.Heap.{Return, ok, fault}
use xmlbeansxx.Output.{
  Written, Writer, behind, go_on, ◌then_write◌, emit, printed, print_name, declare, in_context,
  restore_ns, shown, clear_if_set, clear_default,
}

-- A context that declarations since `c` have led to, over a stack of positions.
abbrev pub From : XmlContext → List ℕ → XmlContext → Type 0
From c positions t =
    (n : ℕ) × Undoes n c t
    × (length t.restore_links ≡ n + length c.restore_links)
    × (t.remembered ≡ positions)

abbrev pub Ends : XmlContext → List ℕ → Return Written → Type 0
Ends c positions (fault e) = Unit {0}
Ends c positions (ok (s, t)) = From c positions s.context

-- A writer that only declares.
abbrev pub Declares : XmlContext → List ℕ → Writer → Type 0
Declares c positions w = (s : NsMapSerializer) → From c positions s.context → Ends c positions (w s)

pub Ends-behind :
    (c : XmlContext) (positions : List ℕ) (t : Text) (r : Return Written)
    → Ends c positions r
    → Ends c positions (behind t r)
Ends-behind c positions t (fault e) h = tt
Ends-behind c positions t (ok (s, u)) h = h

-- The second part may begin with other positions than the first.
pub Ends-go_on :
    (c c' : XmlContext) (positions positions' : List ℕ) (r : Return Written) (k : Writer)
    → Ends c positions r
    → ((s : NsMapSerializer) → From c positions s.context → Ends c' positions' (k s))
    → Ends c' positions' (go_on r k)
Ends-go_on c c' positions positions' (fault e) k h f = tt
Ends-go_on c c' positions positions' (ok (s, t)) k h f = Ends-behind c' positions' t (k s) (f s h)

pub Declares-then_write :
    (c : XmlContext) (positions : List ℕ) (w k : Writer)
    → Declares c positions w
    → Declares c positions k
    → Declares c positions (w then_write k)
Declares-then_write c positions w k f g s h = Ends-go_on c c positions positions (w s) k (f s h) g

pub Declares-emit : (c : XmlContext) (positions : List ℕ) (t : Text) → Declares c positions (emit t)
Declares-emit c positions t s h = h

pub Declares-if :
    (c : XmlContext) (positions : List ℕ) (b : Bool) (w k : Writer)
    → Declares c positions w
    → Declares c positions k
    → Declares c positions (if b then w else k)
Declares-if c positions true w k f g = f
Declares-if c positions false w k f g = g

pub From-declare :
    (c t : XmlContext) (positions : List ℕ) (p ns : Text)
    → From c positions t
    → From c positions (add_namespace t p ns true).0
From-declare c t positions p ns (n, undoes, size, stack) = (
  suc n,
  Undoes-declare n c t (p, ns) undoes,
  ap (λ u. length u.restore_links) (declare_lem t p ns) ∙ more size,
  ap (λ u. u.remembered) (declare_lem t p ns) ∙ stack,
)
  where
    more :
        length t.restore_links ≡ n + length c.restore_links
        → suc (length t.restore_links) ≡ suc n + length c.restore_links
    more e = omega arith

pub Declares-declare :
    (c : XmlContext) (positions : List ℕ) (p ns : Text) → Declares c positions (declare p ns)
Declares-declare c positions p ns s h = From-declare c s.context positions p ns h

-- What cprintQName gives.
abbrev pub PrintedFrom : XmlContext → List ℕ → Option Printed → Type 0
PrintedFrom c positions none = Unit {0}
PrintedFrom c positions (some (s, name)) = From c positions s.context

pub PrintedFrom-if :
    (c : XmlContext) (positions : List ℕ) (b : Bool) (o o' : Option Printed)
    → PrintedFrom c positions o
    → PrintedFrom c positions o'
    → PrintedFrom c positions (if b then o else o')
PrintedFrom-if c positions true o o' h k = h
PrintedFrom-if c positions false o o' h k = k

pub PrintedFrom-fresh :
    (c : XmlContext) (positions : List ℕ) (s : NsMapSerializer) (n : QName) (o : Option (Text × ℕ))
    → From c positions s.context
    → PrintedFrom c positions (print_fresh s n o)
unfolding declare_and_print
PrintedFrom-fresh c positions s n none h = tt
PrintedFrom-fresh c positions s n (some (p, current)) h =
    From-declare c s.context positions p n.namespace_uri h

pub PrintedFrom-found :
    (c : XmlContext) (positions : List ℕ) (calls : ℕ) (s : NsMapSerializer) (n : QName)
    (r : NsMap.Result Text)
    → From c positions s.context
    → PrintedFrom c positions (print_found calls s n r)
PrintedFrom-found c positions calls s n (NsMap.ok p) h = h
PrintedFrom-found c positions calls s n NsMap.beans_exception h =
    PrintedFrom-fresh c positions s n
      (get_next_prefix calls s.context.prefix_map s.prefix_prefix s.current) h

pub PrintedFrom-cprint_qname :
    (c : XmlContext) (positions : List ℕ) (calls : ℕ) (s : NsMapSerializer) (n : QName)
    → From c positions s.context
    → PrintedFrom c positions (cprint_qname calls s n)
unfolding cprint_qname declare_and_print
PrintedFrom-cprint_qname c positions calls s n h =
    PrintedFrom-if c positions (text_eq n.namespace_uri []) _ _ h (
      PrintedFrom-if c positions
        (stands_for (get_namespace_uri s.context.prefix_map n.prefix) n.namespace_uri) _ _ h
        (PrintedFrom-if c positions (text_eq n.prefix []) _ _
          (PrintedFrom-found c positions calls s n (get_prefix s.context.prefix_map n.namespace_uri)
            h)
          (From-declare c s.context positions n.prefix n.namespace_uri h)))

pub Ends-printed :
    (c : XmlContext) (positions : List ℕ) (t : Text) (o : Option Printed)
    → PrintedFrom c positions o
    → Ends c positions (printed t o)
Ends-printed c positions t none h = tt
Ends-printed c positions t (some (s, name)) h = h

pub Declares-print_name :
    (c : XmlContext) (positions : List ℕ) (name : QName) (t : Text)
    → Declares c positions (print_name name t)
Declares-print_name c positions name t s h =
    Ends-printed c positions t (cprint_qname (suc (length s.context.prefix_map)) s name)
      (PrintedFrom-cprint_qname c positions (suc (length s.context.prefix_map)) s name h)

pub Declares-attribute :
    (c : XmlContext) (positions : List ℕ) (name : QName)
    → Declares c positions (emit (codes " ") then_write print_name name (codes "=\""))
Declares-attribute c positions name =
    Declares-then_write c positions (emit (codes " ")) (print_name name (codes "=\""))
      (Declares-emit c positions (codes " ")) (Declares-print_name c positions name (codes "=\""))

pub Ends-clear_if_set :
    (c : XmlContext) (positions : List ℕ) (s : NsMapSerializer) (r : NsMap.Result Text)
    → From c positions s.context
    → Ends c positions (clear_if_set s r)
Ends-clear_if_set c positions s NsMap.beans_exception h = tt
Ends-clear_if_set c positions s (NsMap.ok ns) h = by_test (text_eq ns [])
  where
    by_test : (b : Bool) → Ends c positions (if b then ok (s, []) else declare [] [] s)
    by_test true = h
    by_test false = From-declare c s.context positions [] [] h

pub Declares-clear_default :
    (c : XmlContext) (positions : List ℕ) → Declares c positions clear_default
unfolding clear_default
Declares-clear_default c positions s h =
    Ends-clear_if_set c positions s (get_namespace_uri s.context.prefix_map []) h

pub Ends-shown :
    (c : XmlContext) (positions : List ℕ) (s : NsMapSerializer) (r : NsMap.Result Text)
    → From c positions s.context
    → Ends c positions (shown s r)
Ends-shown c positions s NsMap.beans_exception h = tt
Ends-shown c positions s (NsMap.ok t) h = h

-- The context `c` again, over a stack of positions.
abbrev pub Home : XmlContext → List ℕ → Return Written → Type 0
Home c positions (fault e) = Unit {0}
Home c positions (ok (s, t)) = Back c s.context × (s.context.remembered ≡ positions)

pub Home-behind :
    (c : XmlContext) (positions : List ℕ) (t : Text) (r : Return Written)
    → Home c positions r
    → Home c positions (behind t r)
Home-behind c positions t (fault e) h = tt
Home-behind c positions t (ok (s, u)) h = h

pub Home-go_on :
    (c : XmlContext) (positions positions' : List ℕ) (r : Return Written) (k : Writer)
    → Ends c positions r
    → ((s : NsMapSerializer) → From c positions s.context → Home c positions' (k s))
    → Home c positions' (go_on r k)
Home-go_on c positions positions' (fault e) k h f = tt
Home-go_on c positions positions' (ok (s, t)) k h f = Home-behind c positions' t (k s) (f s h)

pub Ends-Home :
    (c : XmlContext) (positions : List ℕ) (r : Return Written)
    → Home c positions r
    → Ends c positions r
Ends-Home c positions (fault e) h = tt
Ends-Home c positions (ok (s, t)) (back, stack) =
    (0, Undoes-zero c s.context back, ap length back.links_are ∙ omega arith, stack)

pub Ends-From :
    (c : XmlContext) (positions : List ℕ) (t : XmlContext) (q : Return Written)
    → From c positions t
    → Home t t.remembered q
    → Ends c positions q
Ends-From c positions t (fault e) from h = tt
Ends-From c positions t (ok (s, u)) (n, undoes, size, stack) (back, kept) =
    (n, Undoes-Back n c t s.context undoes back, ap length back.links_are ∙ size, kept ∙ stack)

pub Home-restore_ns :
    (c : XmlContext) (popped : ℕ) (r : List ℕ) (s : NsMapSerializer)
    → From c (popped ∷ length c.restore_links ∷ r) s.context
    → Home c (length c.restore_links ∷ r) (restore_ns s)
Home-restore_ns c popped r s (n, undoes, size, stack) =
    let (c', e, back, positions) = restore-Undoes n c s.context popped r undoes size stack in
    subst (λ o. Home c (length c.restore_links ∷ r) (in_context s o)) (sym e) (back, positions)

-- A writer before which and after which the context is the same, where the last position that was
-- remembered is the end of the links.
abbrev pub Keeps : Writer → Type 0
Keeps w =
    (s : NsMapSerializer) (r : List ℕ)
    → s.context.remembered ≡ length s.context.restore_links ∷ r
    → Home s.context s.context.remembered (w s)

pub Keeps-go_on :
    (c : XmlContext) (rest : List ℕ) (r : Return Written) (k : Writer)
    → c.remembered ≡ length c.restore_links ∷ rest
    → Home c c.remembered r
    → Keeps k
    → Home c c.remembered (go_on r k)
Keeps-go_on c rest (fault e) k settled h f = tt
Keeps-go_on c rest (ok (s, t)) k settled (back, stack) f =
    Home-behind c c.remembered t (k s) (
      from_here (k s) (f s rest (stack ∙ settled ∙ ap (λ l. length l ∷ rest) (sym back.links_are))))
  where
    from_here : (q : Return Written) → Home s.context s.context.remembered q → Home c c.remembered q
    from_here (fault e) h = tt
    from_here (ok (s', u)) (back', stack') =
        (Back-trans c s.context s'.context back back', stack' ∙ stack)

pub Keeps-emit : (t : Text) → Keeps (emit t)
Keeps-emit t s r h = (Back-refl s.context, refl)

pub From-remember :
    (c t : XmlContext) (positions : List ℕ)
    → From c positions t
    → From c (length t.restore_links ∷ positions) (remember t)
unfolding remember
From-remember c t positions (n, undoes, size, stack) =
    (n, Undoes-remembered n c t _ undoes, size, ap (λ l. length t.restore_links ∷ l) stack)

-- ===== src/Contents/Simple.antt =====
-- The simple content of a node, set and read back.
use xmlbeansxx.Prelude.{
  ℕ, suc, ◌≡◌, ◌≢◌, refl, ap, sym, subst, ◌∙◌, [], ◌∷◌, ◌++◌, append-nil, Option, none, some, ℤ,
  ◌+◌, false, Text, pos, arith,
}
use xmlbeansxx.QName.{QName, qname_eq, qname_eq_sym, qname_eq_refl}
use xmlbeansxx.Dict
use xmlbeansxx.Dict.{ElemDict, DictEl}
use xmlbeansxx.Dict.Values.{values, values-set_at}
use xmlbeansxx.Dict.Delete.{values-del}
use xmlbeansxx.Heap.{
  Node, Heap, Return, ok, plain, text, illegal_state, M, ◌>>=◌, ◌>>◌, return, fail, store, alloc,
  node_of, load, put_cell, update, text_node, and_then,
}
use xmlbeansxx.Heap.Laws.{update_self, update_other}
use xmlbeansxx.Contents.{
  by_kind, on_kind, elem_array, get_simple_content, set_simple_content, join_texts, remove_elems,
  set_elem, text_element_name,
}

pub elem_array-values : (d : ElemDict ℕ) (u : QName) → elem_array d u ≡ values d u
unfolding elem_array values
elem_array-values [] u = refl
elem_array-values (it ∷ rest) u = ground (arith, qname_eq_sym u it.name, elem_array-values rest u)

-- An operation on an object of the base class.
pub on_plain :
    {A : Type 0} (p : ℕ) (h : Heap) (n : Node) (f : Node → Text → M A) (g : Node → M A)
    → h.cell p ≡ some n
    → n.kind ≡ plain
    → ((load p >>= λ m. by_kind m (f m) (g m)) h) ≡ g n h
on_plain p h n f g at is_plain =
    ap (λ o. and_then (node_of o h) (λ m. by_kind m (f m) (g m))) at
    ∙ ap (λ k. on_kind k (f n) (g n) h) is_plain

on_text :
    {A : Type 0} (p : ℕ) (h : Heap) (n : Node) (value : Text) (f : Node → Text → M A)
    (g : Node → M A)
    → h.cell p ≡ some n
    → n.kind ≡ text value
    → ((load p >>= λ m. by_kind m (f m) (g m)) h) ≡ f n value h
on_text p h n value f g at is_text =
    ap (λ o. and_then (node_of o h) (λ m. by_kind m (f m) (g m))) at
    ∙ ap (λ k. on_kind k (f n) (g n) h) is_text

-- The texts of a node are read one by one.
get_simple_content-plain :
    (depth p : ℕ) (h : Heap) (n : Node)
    → h.cell p ≡ some n
    → n.kind ≡ plain
    → get_simple_content (suc depth) p h
      ≡ join_texts (get_simple_content depth) (values n.elems text_element_name) h
unfolding get_simple_content
get_simple_content-plain depth p h n at is_plain =
    on_plain p h n (λ m value. return value)
      (λ m. join_texts (get_simple_content depth) (elem_array m.elems text_element_name)) at
      is_plain
    ∙ ap (λ l. join_texts (get_simple_content depth) l h)
        (elem_array-values n.elems text_element_name)

get_simple_content-text :
    (depth p : ℕ) (h : Heap) (n : Node) (value : Text)
    → h.cell p ≡ some n
    → n.kind ≡ text value
    → get_simple_content (suc depth) p h ≡ (ok value, h)
unfolding get_simple_content
get_simple_content-text depth p h n value at is_text =
    on_text p h n value (λ m value. return value)
      (λ m. join_texts (get_simple_content depth) (elem_array m.elems text_element_name)) at is_text

pub remove_elems-plain :
    (p : ℕ) (name : QName) (h : Heap) (n : Node)
    → h.cell p ≡ some n
    → n.kind ≡ plain
    → remove_elems p name h ≡ (ok tt, put_cell h p record n { elems = (Dict.del n.elems name).0 })
unfolding remove_elems
remove_elems-plain p name h n at is_plain =
    on_plain p h n (λ m value. return tt)
      (λ m. store p record m { elems = (Dict.del m.elems name).0 }) at is_plain

pub set_elem-plain :
    (p : ℕ) (name : QName) (value : Option ℕ) (index : ℤ) (h : Heap) (n : Node)
    → h.cell p ≡ some n
    → n.kind ≡ plain
    → set_elem p name value index h
      ≡ (ok tt, put_cell h p record n { elems = Dict.set_at n.elems name index value })
unfolding set_elem
set_elem-plain p name value index h n at is_plain =
    on_plain p h n (λ m _. fail illegal_state)
      (λ m. store p record m { elems = Dict.set_at m.elems name index value }) at is_plain

-- What is left after the simple content `c` has been set on a node.
abbrev pub ContentSet : Text → ℕ → Node → Return (Unit {0}) × Heap → Type 0
ContentSet c p n (r, h) =
    (r ≡ ok tt)
    × ((get_simple_content 2 p h).0 ≡ ok c)
    × ((n' : Node) × (h.cell p ≡ some n')
        × (n'.attrs ≡ n.attrs)
        × ((w : QName)
            → qname_eq text_element_name w ≡ false
            → values n'.elems w ≡ values n.elems w))

values-del_other :
    (d : ElemDict ℕ) (w : QName)
    → qname_eq text_element_name w ≡ false
    → values (Dict.del d text_element_name).0 w ≡ values d w
values-del_other d w other = rw (values-del d text_element_name w, other) refl

no_texts : (d : ElemDict ℕ) → values (Dict.del d text_element_name).0 text_element_name ≡ []
no_texts d =
    rw (values-del d text_element_name text_element_name, qname_eq_refl text_element_name) refl

-- The node without its texts.
abbrev without_texts : Node → Node
without_texts n = record n { elems = (Dict.del n.elems text_element_name).0 }

set_empty :
    (string_type p : ℕ) (h : Heap) (n : Node)
    → h.cell p ≡ some n
    → n.kind ≡ plain
    → set_simple_content string_type p [] h ≡ (ok tt, put_cell h p (without_texts n))
unfolding set_simple_content
set_empty string_type p h n at is_plain =
    on_plain p h n (λ m value. store p record m { kind = text [] })
      (λ m. remove_elems p text_element_name >> return tt) at is_plain
    ∙ ap (λ r. and_then r (λ _. return tt)) (remove_elems-plain p text_element_name h n at is_plain)

-- With a new text behind the address `h.next`.
abbrev with_text : Heap → Node → Node
with_text h n = record n {
  elems =
      Dict.set_at (Dict.del n.elems text_element_name).0 text_element_name (pos 0) (some h.next);
}

abbrev text_heap : ℕ → ℕ → Text → Heap → Node → Heap
text_heap string_type p c h n =
    put_cell
      record h {
        cell = update (put_cell h p (without_texts n)).cell h.next (text_node string_type c);
        next = h.next + 1;
      }
      p (with_text h n)

set_text :
    (string_type p b : ℕ) (s : Text) (h : Heap) (n : Node)
    → h.next ≢ p
    → h.cell p ≡ some n
    → n.kind ≡ plain
    → set_simple_content string_type p (b ∷ s) h ≡ (ok tt, text_heap string_type p (b ∷ s) h n)
unfolding set_simple_content
set_text string_type p b s h n apart at is_plain =
    on_plain p h n (λ m value. store p record m { kind = text (b ∷ s) })
      (λ m. remove_elems p text_element_name >> then_text) at is_plain
    ∙ ap (λ r. and_then r (λ _. then_text)) (remove_elems-plain p text_element_name h n at is_plain)
    ∙ set_elem-plain p text_element_name (some h.next) (pos 0) h' (without_texts n)
        (update_other (put_cell h p (without_texts n)).cell h.next (text_node string_type (b ∷ s)) p
            apart
          ∙ update_self h.cell p (without_texts n))
        is_plain
  where
    then_text : M (Unit {0})
    then_text = do
      q ← alloc (text_node string_type (b ∷ s))
      set_elem p text_element_name (some q) (pos 0)

    h' : Heap
    h' = record h {
      cell = update (put_cell h p (without_texts n)).cell h.next (text_node string_type (b ∷ s));
      next = h.next + 1;
    }

-- One text is the simple content.
one_text :
    (depth q : ℕ) (h : Heap) (c : Text)
    → get_simple_content depth q h ≡ (ok c, h)
    → join_texts (get_simple_content depth) (some q ∷ []) h ≡ (ok c, h)
unfolding join_texts
one_text depth q h c e =
    ap (λ r. and_then r (λ s. return (s ++ []))) e ∙ ap (λ s. (ok s, h)) (append-nil c)

set_text-ContentSet :
    (string_type p b : ℕ) (s : Text) (h : Heap) (n : Node)
    → h.next ≢ p
    → n.kind ≡ plain
    → ContentSet (b ∷ s) p n (ok tt, text_heap string_type p (b ∷ s) h n)
set_text-ContentSet string_type p b s h n apart is_plain = (
  refl,
  ap (λ (r : Return Text × Heap). r.0)
      (get_simple_content-plain 1 p h' (with_text h n) at is_plain
        ∙ ap (λ l. join_texts (get_simple_content 1) l h') texts
        ∙ one_text 1 h.next h' (b ∷ s) (
            get_simple_content-text 0 h.next h' (text_node string_type (b ∷ s)) (b ∷ s) at_text
              refl)),
  (with_text h n, at, refl, others),
)
  where
    h' : Heap
    h' = text_heap string_type p (b ∷ s) h n

    at : h'.cell p ≡ some (with_text h n)
    at = update_self _ p (with_text h n)

    at_text : h'.cell h.next ≡ some (text_node string_type (b ∷ s))
    at_text =
        update_other _ p (with_text h n) h.next (λ e. apart (sym e))
        ∙ update_self (put_cell h p (without_texts n)).cell h.next (text_node string_type (b ∷ s))

    texts : values (with_text h n).elems text_element_name ≡ some h.next ∷ []
    texts =
        rw
          (
            values-set_at (Dict.del n.elems text_element_name).0 text_element_name text_element_name
                0 (some h.next),
            qname_eq_refl text_element_name,
            no_texts n.elems,
          )
          refl

    others :
        (w : QName)
        → qname_eq text_element_name w ≡ false
        → values (with_text h n).elems w ≡ values n.elems w
    others w other =
        rw
          (
            values-set_at (Dict.del n.elems text_element_name).0 text_element_name w 0
                (some h.next),
            other,
          )
          (values-del_other n.elems w other)

-- `setSimpleContent` of a node that is no StringContents returns, `getSimpleContent` then gives the
-- text that was set, also the empty one, and the attributes and the elements that are no texts are
-- as they were; nothing stands at the address that the next new object gets.
pub set_simple_content-ContentSet :
    (string_type p : ℕ) (c : Text) (h : Heap) (n : Node)
    → h.cell h.next ≡ none
    → h.cell p ≡ some n
    → n.kind ≡ plain
    → ContentSet c p n (set_simple_content string_type p c h)
unfolding join_texts
set_simple_content-ContentSet string_type p [] h n new at is_plain =
    subst (ContentSet [] p n) (sym (set_empty string_type p h n at is_plain)) (
      refl,
      ap (λ (r : Return Text × Heap). r.0)
          (get_simple_content-plain 1 p (put_cell h p (without_texts n)) (without_texts n)
              (update_self h.cell p (without_texts n)) is_plain
            ∙ ap (λ l. join_texts (get_simple_content 1) l (put_cell h p (without_texts n)))
                (no_texts n.elems)),
      (without_texts n, update_self h.cell p (without_texts n), refl, values-del_other n.elems),
    )
set_simple_content-ContentSet string_type p (b ∷ s) h n new at is_plain =
    subst (ContentSet (b ∷ s) p n) (sym (set_text string_type p b s h n apart at is_plain))
      (set_text-ContentSet string_type p b s h n apart is_plain)
  where
    apart : h.next ≢ p
    apart e = cc (ap h.cell e, new, at)

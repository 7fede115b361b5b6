-- ===== src/Serialize/Namespaces.antt =====
-- The namespaces around an element are the same before and after it is written.
use xmlbeansxx.Prelude.{
  ℕ, zero, suc, ◌≡◌, ap, sym, subst, List, [], ◌∷◌, ◌++◌, Option, none, some, Bool, true, false,
  not, ◌&&◌, ◌||◌, ltb, if◌then◌else◌, length, Text, codes, text_eq, arith,
}
use xmlbeansxx.QName.{QName}
use xmlbeansxx.Dict.{ElemDict}
use xmlbeansxx.XmlContext.{
  XmlContext, NsMapSerializer, Printed, remember, cprint_qname, print_new_ns,
}
use xmlbeansxx.XmlContext.Scopes.{Back-refl, Undoes-zero}
use xmlbeansxx.Heap.{Kind, plain, text, Node, Return, ok, fault}
use xmlbeansxx.Cursor.{xmlns}
use xmlbeansxx.Walker.{get_simple_content}
use xmlbeansxx.Output.{
  with_inner_types, Written, Writer, behind, ◌then_write◌, emit, declare, restore_ns, xsi_type,
  inner_type_ns, clear_default,
}
use xmlbeansxx.Output.Scoped.{
  From, Declares, Ends-behind, Ends-go_on, Declares-then_write, Declares-emit, Declares-if,
  Declares-declare, PrintedFrom, PrintedFrom-cprint_qname, Declares-print_name, Declares-attribute,
  Declares-clear_default, Ends-shown, Home, Home-go_on, Ends-Home, Ends-From, Home-restore_ns,
  Keeps, Keeps-go_on, Keeps-emit, From-remember,
}
use xmlbeansxx.Serialize.{
  Setting, Entry, entries, sort, with_text, add_declarations, write_attrs, serialize_attrs,
  write_type, write_entry, write_value, write_elems, serialize_elems, close_element, open_element,
  serialize_plain, by_class, serialize_node, serialize,
}

module _ (g : Setting) where
  Declares-with_text :
      (c : XmlContext) (positions : List ℕ) (r : Return Text) (w : Text → Writer)
      → ((t : Text) → Declares c positions (w t))
      → Declares c positions (with_text g w r)
  Declares-with_text c positions (fault e) w f s h = tt
  Declares-with_text c positions (ok t) w f s h = f t s h

  Declares-add_declarations :
      (c : XmlContext) (positions : List ℕ) (clear : Bool) (attrs : ElemDict ℕ)
      → Declares c positions (add_declarations g clear attrs)
  unfolding add_declarations
  Declares-add_declarations c positions clear [] = Declares-emit c positions []
  Declares-add_declarations c positions clear (it ∷ rest) =
      Declares-if c positions
        (text_eq it.name.namespace_uri xmlns && (not clear || not (text_eq it.name.local_part [])))
        _ _
        (Declares-then_write c positions _ _
          (Declares-with_text c positions (get_simple_content g.depth it.value g.document).0
            (declare it.name.local_part) (Declares-declare c positions it.name.local_part))
          (Declares-add_declarations c positions clear rest))
        (Declares-add_declarations c positions clear rest)

  Declares-write_attrs :
      (c : XmlContext) (positions : List ℕ) (attrs : ElemDict ℕ)
      → Declares c positions (write_attrs g attrs)
  unfolding write_attrs
  Declares-write_attrs c positions [] = Declares-emit c positions []
  Declares-write_attrs c positions (it ∷ rest) =
      Declares-if c positions (text_eq it.name.namespace_uri xmlns) _ _
        (Declares-write_attrs c positions rest)
        (Declares-then_write c positions _ _
          (Declares-then_write c positions _ _ (Declares-attribute c positions it.name) (
            Declares-with_text c positions (get_simple_content g.depth it.value g.document).0 _
              (λ t. Declares-emit c positions (g.escape true t ++ codes "\""))))
          (Declares-write_attrs c positions rest))

  Declares-serialize_attrs :
      (c : XmlContext) (positions : List ℕ) (attrs : ElemDict ℕ)
      → Declares c positions (serialize_attrs g attrs)
  unfolding serialize_attrs
  Declares-serialize_attrs c positions attrs =
      Declares-then_write c positions _ _ (Declares-write_attrs c positions attrs)
        (λ s h. Ends-shown c positions s (print_new_ns s) h)

  Declares-write_type :
      (c : XmlContext) (positions : List ℕ) (b : Bool) (st : ℕ)
      → Declares c positions (write_type g b st)
  unfolding write_type
  Declares-write_type c positions b st =
      Declares-if c positions
        (b
          && g.options.serialize_types
          && (with_inner_types g.options
              || not (text_eq (g.types st).name.namespace_uri inner_type_ns)))
        _ _
        (Declares-then_write c positions _ _ (Declares-attribute c positions xsi_type)
          (Declares-print_name c positions (g.types st).name (codes "\"")))
        (Declares-emit c positions [])

  -- What writes the elements below keeps the context.
  module _ (write : Bool → QName → ℕ → Writer)
      (keeps : (b : Bool) (name : QName) (q : ℕ) → Keeps (write b name q)) where
    Keeps-write_entry : (e : Entry) (q : ℕ) (o : Option Node) → Keeps (write_entry g write e q o)
    Keeps-write_entry e q none s r h = tt
    Keeps-write_entry e q (some m) s r h = keeps _ e.el.name q s r h

    Keeps-write_value : (e : Entry) (v : Option ℕ) → Keeps (write_value g write e v)
    Keeps-write_value e none s r h = Keeps-emit [] s r h
    Keeps-write_value e (some q) s r h = Keeps-write_entry e q (g.document.cell q) s r h

    Keeps-write_elems : (l : List Entry) → Keeps (write_elems g write l)
    unfolding write_elems
    Keeps-write_elems [] s r h = Keeps-emit [] s r h
    Keeps-write_elems (e ∷ l) s r h =
        Keeps-go_on s.context r (write_value g write e e.el.value s) (write_elems g write l) h
          (Keeps-write_value e e.el.value s r h) (Keeps-write_elems l)

    -- The elements of a node: what their remember adds to the positions, their restore takes off.
    Declares-serialize_elems :
        (c : XmlContext) (r : List ℕ) (n : Node)
        → Declares c (length c.restore_links ∷ r) (serialize_elems g write n)
    unfolding serialize_elems remember
    Declares-serialize_elems c r n s from =
        Ends-Home c (length c.restore_links ∷ r) (serialize_elems g write n s) (
          Home-go_on c (length s.context.restore_links ∷ length c.restore_links ∷ r)
            (length c.restore_links ∷ r) (behind [] written) restore_ns
            (Ends-behind c (length s.context.restore_links ∷ length c.restore_links ∷ r) [] written
              (Ends-From c _ s'.context written here
                (Keeps-write_elems elems s' (length c.restore_links ∷ r) settled)))
            (λ s. Home-restore_ns c _ r s))
      where
        elems : List Entry
        elems = sort (entries (g.types n.st) g.ts g.xml_object 0 n.elems)

        s' : NsMapSerializer
        s' = record s { context = remember s.context }

        written : Return Written
        written = write_elems g write elems s'

        here : From c (length s.context.restore_links ∷ length c.restore_links ∷ r) s'.context
        here = From-remember c s.context (length c.restore_links ∷ r) from

        settled :
            s'.context.remembered ≡ length s'.context.restore_links ∷ length c.restore_links ∷ r
        settled = ap (λ l. length s.context.restore_links ∷ l) from.3

    Home-open_element :
        (c : XmlContext) (r : List ℕ) (b : Bool) (n : Node) (o : Option Printed)
        → PrintedFrom c (length c.restore_links ∷ length c.restore_links ∷ r) o
        → Home c (length c.restore_links ∷ r) (open_element g write b n o)
    Home-open_element c r b n none h = tt
    Home-open_element c r b n (some (s, name)) h =
        Home-go_on c positions (length c.restore_links ∷ r) (body s) restore_ns (inside s h)
          (λ s. Home-restore_ns c _ r s)
      where
        positions : List ℕ
        positions = length c.restore_links ∷ length c.restore_links ∷ r

        body : Writer
        body =
            emit (codes "<" ++ name)
            then_write write_type g b n.st
            then_write serialize_attrs g n.attrs
            then_write close_element g write n name

        closed : Declares c positions (close_element g write n name)
        closed =
            Declares-if c positions (ltb 0 (length n.elems)) _ _
              (Declares-then_write c positions
                (emit (codes ">") then_write serialize_elems g write n)
                (emit (codes "</" ++ name ++ codes ">"))
                (Declares-then_write c positions (emit (codes ">")) (serialize_elems g write n)
                  (Declares-emit c positions (codes ">"))
                  (Declares-serialize_elems c (length c.restore_links ∷ r) n))
                (Declares-emit c positions (codes "</" ++ name ++ codes ">")))
              (Declares-emit c positions (codes "/>"))

        inside : Declares c positions body
        inside =
            Declares-then_write c positions _ _
              (Declares-then_write c positions _ _
                (Declares-then_write c positions (emit (codes "<" ++ name)) (write_type g b n.st)
                  (Declares-emit c positions (codes "<" ++ name))
                  (Declares-write_type c positions b n.st))
                (Declares-serialize_attrs c positions n.attrs))
              closed

    Keeps-serialize_plain :
        (b : Bool) (name : QName) (n : Node) → Keeps (serialize_plain g write b name n)
    unfolding serialize_plain remember
    Keeps-serialize_plain b name n s r settled =
        subst (λ l. Home c l (serialize_plain g write b name n s)) (sym settled)
          (Home-go_on c positions (length c.restore_links ∷ r) _ _
            (Ends-go_on c c positions positions (behind [] (cleared s'))
              (add_declarations g clear n.attrs)
              (Ends-behind c positions [] (cleared s') (
                Declares-if c positions clear clear_default (emit [])
                  (Declares-clear_default c positions) (Declares-emit c positions []) s' begun))
              (Declares-add_declarations c positions clear n.attrs))
            (λ s from.
              Home-open_element c r b n (cprint_qname (suc (length s.context.prefix_map)) s name) (
                PrintedFrom-cprint_qname c positions (suc (length s.context.prefix_map)) s name
                  from)))
      where
        c : XmlContext
        c = s.context

        clear : Bool
        clear = text_eq name.namespace_uri []

        positions : List ℕ
        positions = length c.restore_links ∷ length c.restore_links ∷ r

        s' : NsMapSerializer
        s' = record s { context = remember c }

        cleared : Writer
        cleared = if clear then clear_default else emit []

        begun : From c positions s'.context
        begun =
            From-remember c c (length c.restore_links ∷ r)
              (0, Undoes-zero c c (Back-refl c), omega arith, settled)

    Keeps-serialize_node :
        (b : Bool) (name : QName) (o : Option Node) → Keeps (serialize_node g write b name o)
    Keeps-serialize_node b name none s r h = tt
    Keeps-serialize_node b name (some n) s r h = by_kind n.kind
      where
        by_kind :
            (k : Kind)
            → Home s.context s.context.remembered
                (by_class g k (serialize_plain g write b name n) s)
        by_kind plain = Keeps-serialize_plain b name n s r h
        by_kind (text value) = Keeps-emit (g.escape false value) s r h

  Keeps-serialize :
      (levels : ℕ) (b : Bool) (name : QName) (p : ℕ) → Keeps (serialize g levels b name p)
  unfolding serialize
  Keeps-serialize zero b name p s r h = tt
  Keeps-serialize (suc levels) b name p s r h =
      Keeps-serialize_node (serialize g levels) (Keeps-serialize levels) b name (g.document.cell p)
        s r h

-- Where the last position remembered is the end of the links, writing an element either ends with
-- a fault or leaves the namespaces as they were: the same links, the same positions, and each
-- prefix stands for what it stood for, the empty namespace if for nothing.
pub serialize-Home :
    (g : Setting) (levels : ℕ) (print_xsi_type : Bool) (name : QName) (p : ℕ) (s : NsMapSerializer)
    (r : List ℕ)
    → s.context.remembered ≡ length s.context.restore_links ∷ r
    → Home s.context s.context.remembered (serialize g levels print_xsi_type name p s)
serialize-Home g levels print_xsi_type name p s r h =
    Keeps-serialize g levels print_xsi_type name p s r h

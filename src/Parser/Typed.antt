-- ===== src/Parser/Typed.antt =====
-- The attribute xsi:type of an element, in `startElementNs` of src/xmlbeansxx/LibXMLParser.cpp.
use xmlbeansxx.Prelude.{
  ℕ, List, [], ◌∷◌, ◌++◌, Option, none, some, true, false, ◌≡◌, refl, ◌∙◌, ap, sym, append-nil,
  if◌then◌else◌, Text, text_eq, codes,
}
use xmlbeansxx.QName.{QName, qname, qname_eq}
use xmlbeansxx.NsMap.{PrefixMap, lookup, split_colon}
use xmlbeansxx.NsMap
use xmlbeansxx.NsMap.Resolve.{NoColon, split_colon-append}
use xmlbeansxx.Heap.{Return, ok, fault, xml_exception}
use xmlbeansxx.Schema.{create_by_name}
use xmlbeansxx.Output.{xsi_type}
use xmlbeansxx.Parser.{
  Object, Setting, State, P, and_then, ◌>>=◌, return, or_throw, namespace_uri, get_qname, ns_split,
  qname_of_split, is_persist_prefix,
}
use xmlbeansxx.Parser.Elements.{xsi_array, new_object, not_null, typed_by, retype}
use xmlbeansxx.Parser.LibXml.{Attribute, attribute_name, attribute_value}
use xmlbeansxx.Parser.Returns.{bind_ok}

-- The attribute has a name in the state, which is neither xsi:type nor xsi:array.
pub record Other (s : State) (a : Attribute) : Type 0 where
  pub name : QName
  pub named : attribute_name a s ≡ (ok name, s)
  pub no_type : qname_eq name xsi_type ≡ false
  pub no_array : qname_eq name xsi_array ≡ false

abbrev pub Others : State → List Attribute → Type 0
Others s [] = Unit
Others s (a ∷ attrs) = Other s a × Others s attrs

-- The attribute is xsi:type under the prefix `x`, and its value the name `p:local`.
abbrev pub type_attribute : Text → Text → Text → Attribute
type_attribute x p local = record {
  localname = codes "type";
  prefix = some x;
  value = p ++ b':' ∷ local;
}

namespace_uri-some :
    (s : State) (p u : Text)
    → lookup p s.xml_context.prefix_map ≡ some u
    → namespace_uri p s ≡ (ok u, s)
unfolding namespace_uri NsMap.get_namespace_uri
namespace_uri-some s p u e = ap (λ o. or_throw (NsMap.or_throw o) s) e

ns_split-prefixed :
    (s : State) (p rest u : Text)
    → NoColon p
    → lookup p s.xml_context.prefix_map ≡ some u
    → ns_split (p ++ b':' ∷ rest) false s ≡ (ok (qname u rest), s)
unfolding ns_split
ns_split-prefixed s p rest u colonless e =
    ap (λ o. qname_of_split (p ++ b':' ∷ rest) false o s) (split_colon-append p rest colonless)
    ∙ bind_ok (namespace_uri p) (λ ns. return (qname ns rest)) s (namespace_uri-some s p u e)

abbrev pub retype_in : Setting → List Attribute → Option Object → P (Option Object)
retype_in z attrs n = retype z attribute_name attribute_name attribute_value attrs n

retype-Others :
    (z : Setting) (s : State) (attrs more : List Attribute) (n : Option Object)
    → Others s attrs
    → retype_in z (attrs ++ more) n s ≡ retype_in z more n s
unfolding retype typed_by
retype-Others z s [] more n h = refl
retype-Others z s (a ∷ attrs) more n (o, h) =
    bind_ok (attribute_name a) (λ x. typed_by z x a.value n >>= retype_in z (attrs ++ more)) s
      o.named
    ∙ bind_ok (typed_by z o.name a.value n) (retype_in z (attrs ++ more)) s
        (rw (o.no_type, o.no_array) refl)
    ∙ retype-Others z s attrs more n h

-- An object of the type, or the exception where there is none.
abbrev pub decided : Option ℕ → State → Return (Option Object) × State
decided none s = (fault xml_exception, s)
decided (some t) s = (ok (some (record { contents = none; origin = t })), s)

typed_by-type :
    (z : Setting) (s : State) (p local u : Text) (n : Option Object) (x : QName)
    → qname_eq x xsi_type ≡ true
    → NoColon p
    → lookup p s.xml_context.prefix_map ≡ some u
    → typed_by z x (p ++ b':' ∷ local) n s
      ≡ decided (create_by_name z.types z.type_system (qname u local)) s
unfolding typed_by
typed_by-type z s p local u n x is_type colonless e = rw is_type (
    bind_ok (ns_split (p ++ b':' ∷ local) false)
      (λ t. not_null (new_object (create_by_name z.types z.type_system t)) >>= λ o. return (some o))
      s (ns_split-prefixed s p local u colonless e)
    ∙ by_type (create_by_name z.types z.type_system (qname u local)))
  where
    by_type : (t : Option ℕ) → (not_null (new_object t) >>= λ o. return (some o)) s ≡ decided t s
    by_type none = refl
    by_type (some t) = refl

retype-decided :
    (z : Setting) (s : State) (after : List Attribute) (t : Option ℕ)
    → Others s after
    → and_then (decided t s) (retype_in z after) ≡ decided t s
retype-decided z s after none h = refl
retype-decided z s after (some t) h =
    ap (λ l. retype_in z l (some (record { contents = none; origin = t })) s)
      (sym (append-nil after))
    ∙ unfold retype in retype-Others z s after [] (some (record { contents = none; origin = t })) h

-- Where one of the attributes of an element is xsi:type, with the name of a type as its value, and
-- the others have names of their own, the object of the element is made anew from the table of
-- types by that name, whatever the type of its parent gave, or none; where the table has no such
-- type, XmlException is thrown.
pub retype-type_attribute :
    (z : Setting) (s : State) (earlier later : List Attribute) (x p local u : Text)
    (n : Option Object)
    → lookup x s.xml_context.prefix_map ≡ some (codes "http://www.w3.org/2001/XMLSchema-instance")
    → NoColon p
    → lookup p s.xml_context.prefix_map ≡ some u
    → Others s earlier
    → Others s later
    → retype_in z (earlier ++ type_attribute x p local ∷ later) n s
      ≡ decided (create_by_name z.types z.type_system (qname u local)) s
unfolding retype get_qname
retype-type_attribute z s earlier later x p local u n xsi colonless e before after =
    retype-Others z s earlier (type_attribute x p local ∷ later) n before
    ∙ bind_ok (attribute_name (type_attribute x p local))
        (λ y. typed_by z y (p ++ b':' ∷ local) n >>= retype_in z later) s
        (bind_ok (namespace_uri x) (λ ns. return (name_in ns)) s
          (namespace_uri-some s x xsi_type.namespace_uri xsi))
    ∙ ap (λ r. and_then r (retype_in z later))
        (typed_by-type z s p local u n (name_in xsi_type.namespace_uri)
          (unfold qname_eq text_eq in refl) colonless e)
    ∙ retype-decided z s later (create_by_name z.types z.type_system (qname u local)) after
  where
    name_in : Text → QName
    name_in ns = record {
      namespace_uri = ns;
      local_part = codes "type";
      prefix = if is_persist_prefix x then [] else x;
    }

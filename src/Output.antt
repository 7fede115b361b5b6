-- ===== src/Output.antt =====
-- What src/xmlbeansxx/Serialize.cpp is written with: the options, a stream of text, and the names and
-- declarations of an NSMapSerializer on it. Where one statement of the source writes two names, the
-- first of them is printed first.
pub mod Scoped
use xmlbeansxx.Prelude.{
  ℕ, zero, suc, List, [], ◌∷◌, ◌++◌, Option, none, some, Bool, true, false, ◌&&◌, if◌then◌else◌,
  length, Text, codes, text_eq,
}
use xmlbeansxx.QName.{QName, qname}
use xmlbeansxx.NsMap.{get_namespace_uri}
use xmlbeansxx.NsMap
use xmlbeansxx.XmlContext.{
  XmlContext, NsMapSerializer, Printed, add_namespace, remember, restore, cprint_qname,
  print_new_ns,
}
use xmlbeansxx.Heap.{Fault, bad_pointer, beans_exception, too_deep, Return, ok, fault}

-- The fields of XmlOptions that are read here.
pub record XmlOptions : Type 0 where
  pub print_xml_declaration : Bool
  pub serialize_types : Bool
  pub serialize_inner_types : Bool
  pub serialize_persistent : Bool

-- `getSerializeInnerTypes`
abbrev pub with_inner_types : XmlOptions → Bool
with_inner_types o = o.serialize_types && o.serialize_inner_types

-- A part of the output, and the namespaces after it.
abbrev pub Written : Type 0
Written = NsMapSerializer × Text

abbrev pub Writer : Type 0
Writer = NsMapSerializer → Return Written

abbrev pub behind : Text → Return Written → Return Written
behind t (fault e) = fault e
behind t (ok (s, u)) = ok (s, t ++ u)

abbrev pub go_on : Return Written → Writer → Return Written
go_on (fault e) k = fault e
go_on (ok (s, t)) k = behind t (k s)

infixl 5 ◌then_write◌
abbrev pub ◌then_write◌ : Writer → Writer → Writer
◌then_write◌ w k s = go_on (w s) k

abbrev pub emit : Text → Writer
emit t s = ok (s, t)

-- `ns.cprintQName(name)` with the text behind it. One call of getNextPrefix more than there are
-- prefixes is allowed.
abbrev pub printed : Text → Option Printed → Return Written
printed t none = fault too_deep
printed t (some (s, name)) = ok (s, name ++ t)

abbrev pub print_name : QName → Text → Writer
print_name name t s = printed t (cprint_qname (suc (length s.context.prefix_map)) s name)

abbrev pub declare : Text → Text → Writer
declare p ns s = ok (record s { context = (add_namespace s.context p ns true).0 }, [])

abbrev pub remember_ns : Writer
remember_ns s = ok (record s { context = remember s.context }, [])

abbrev pub in_context : NsMapSerializer → Option XmlContext → Return Written
in_context s none = fault bad_pointer
in_context s (some c) = ok (record s { context = c }, [])

abbrev pub restore_ns : Writer
restore_ns s = in_context s (restore s.context)

abbrev pub shown : NsMapSerializer → NsMap.Result Text → Return Written
shown s NsMap.beans_exception = fault beans_exception
shown s (NsMap.ok t) = ok (s, t)

abbrev pub print_declared : Writer
print_declared s = shown s (print_new_ns s)

abbrev pub xsi_type : QName
xsi_type = qname (codes "http://www.w3.org/2001/XMLSchema-instance") (codes "type")

abbrev pub inner_type_ns : Text
inner_type_ns = codes "http://xmlbeansxx.touk.pl/xmlbeansxx/innerType"

-- An element without a namespace takes the default one away, if it is not empty.
abbrev pub clear_if_set : NsMapSerializer → NsMap.Result Text → Return Written
clear_if_set s NsMap.beans_exception = fault beans_exception
clear_if_set s (NsMap.ok ns) = if text_eq ns [] then ok (s, []) else declare [] [] s

unfoldable pub clear_default : Writer
clear_default s = clear_if_set s (get_namespace_uri s.context.prefix_map [])

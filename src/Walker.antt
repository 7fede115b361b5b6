-- ===== src/Walker.antt =====
-- `Contents::Walker` of src/xmlbeansxx/Contents.h and Walker.cpp, by which the generated classes
-- reach the contents of an XmlObject. An object is the pointer to its contents: the generated
-- class XmlObject holds nothing else here. Every operation but three refuses an object without
-- contents.
pub mod Arrays
pub mod Creation
mod Examples
use xmlbeansxx.Prelude.{
  ℕ, zero, suc, List, [], ◌∷◌, Option, none, some, Bool, true, false, Text, ℤ, pos,
}
use xmlbeansxx.QName.{QName}
use xmlbeansxx.Dict.{ElemDict}
use xmlbeansxx.Heap.{Node, null_ptr_exception, M, ◌>>=◌, ◌>>◌, return, fail, load}
use xmlbeansxx.Contents

-- `if(!obj.hasContents()) throw NullPtrException(...)`
abbrev pub contents : Option ℕ → M ℕ
contents none = fail null_ptr_exception
contents (some p) = return p

unfoldable pub get_attr : Option ℕ → QName → M (Option ℕ)
get_attr obj x = do p ← contents obj; Contents.get_attr p x

-- `getSimpleContent`: the depth that the recursion through the texts may reach.
unfoldable pub get_simple_content : ℕ → Option ℕ → M Text
get_simple_content depth none = return []
get_simple_content depth (some p) = Contents.get_simple_content depth p

unfoldable pub get_attr_string : ℕ → Option ℕ → QName → M Text
get_attr_string depth obj x = do
  p ← contents obj
  a ← Contents.get_attr p x
  get_simple_content depth a

unfoldable pub set_attr : Option ℕ → QName → Option ℕ → M (Unit {0})
set_attr obj x y = do p ← contents obj; Contents.set_attr p x y

-- `xml_string` is the generated constructor of XmlString from a text.
unfoldable pub set_attr_text : (Text → M (Option ℕ)) → Option ℕ → QName → Text → M (Unit {0})
set_attr_text xml_string obj x y = do p ← contents obj; v ← xml_string y; Contents.set_attr p x v

unfoldable pub get_elem : Option ℕ → QName → ℤ → M (Option ℕ)
get_elem obj x index = do p ← contents obj; Contents.get_elem p x index

-- `cgetElem`: `create` is `st->createSubObject(x)` with `createContents()`, for the type `st`.
abbrev pub make_elem : (ℕ → QName → M ℕ) → ℕ → QName → ℤ → M ℕ
make_elem create p x index = do
  n ← load p
  q ← create n.st x
  Contents.set_elem p x (some q) index
  return q

abbrev pub or_make : M ℕ → Option ℕ → M ℕ
or_make make (some q) = return q
or_make make none = make

unfoldable pub cget_elem : (ℕ → QName → M ℕ) → Option ℕ → QName → ℤ → M ℕ
cget_elem create obj x index = do
  p ← contents obj
  e ← Contents.get_elem p x index
  or_make (make_elem create p x index) e

unfoldable pub set_elem : Option ℕ → QName → Option ℕ → ℤ → M (Unit {0})
set_elem obj x y index = do p ← contents obj; Contents.set_elem p x y index

unfoldable pub is_set_elem : Option ℕ → QName → ℤ → M Bool
is_set_elem obj x index = do p ← contents obj; Contents.is_set_elem p x index

unfoldable pub remove_elems : Option ℕ → QName → M (Unit {0})
remove_elems obj x = do p ← contents obj; Contents.remove_elems p x

unfoldable pub remove_elem_at : Option ℕ → QName → ℤ → M (Unit {0})
remove_elem_at obj x index = do p ← contents obj; Contents.remove_elem_at p x index

unfoldable pub count_elems : Option ℕ → QName → M ℕ
count_elems obj x = do p ← contents obj; Contents.count_elems p x

unfoldable pub has_elements : Option ℕ → M Bool
has_elements obj = do p ← contents obj; Contents.has_elements p

unfoldable pub append_elem : Option ℕ → QName → Option ℕ → M (Unit {0})
append_elem obj x y = do p ← contents obj; n ← count_elems obj x; Contents.set_elem p x y (pos n)

unfoldable pub get_elems : Option ℕ → M (ElemDict ℕ)
get_elems obj = do p ← contents obj; Contents.get_elems p false

unfoldable pub get_attrs : ℕ → Option ℕ → M (List (QName × Text))
get_attrs depth obj = do p ← contents obj; Contents.get_attrs depth p

unfoldable pub get_attr_objects : Option ℕ → M (ElemDict ℕ)
get_attr_objects obj = do p ← contents obj; Contents.get_attrs2 p

unfoldable pub get_elem_array : Option ℕ → QName → M (List (Option ℕ))
get_elem_array obj name = do p ← contents obj; Contents.get_elem_array p name

unfoldable pub append_all : Option ℕ → QName → List (Option ℕ) → M (Unit {0})
append_all obj name [] = return tt
append_all obj name (y ∷ v) = append_elem obj name y >> append_all obj name v

unfoldable pub set_elem_array : Option ℕ → QName → List (Option ℕ) → M (Unit {0})
set_elem_array obj name v = do contents obj; remove_elems obj name; append_all obj name v

-- `create_contents` gives an object contents of its type, where it has none.
unfoldable pub set_simple_content : (Option ℕ → M ℕ) → ℕ → Option ℕ → Text → M (Unit {0})
set_simple_content create_contents string_type obj c = do
  p ← create_contents obj
  Contents.set_simple_content string_type p c

unfoldable pub has_empty_content : Option ℕ → M Bool
has_empty_content none = return true
has_empty_content (some p) = Contents.has_empty_content p

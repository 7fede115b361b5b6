-- ===== src/Heap.antt =====
-- The objects of class `Contents` (src/xmlbeansxx/Contents.h, ContentsImpl.h) and the shared
-- pointers between them. A pointer is an address, the null pointer is `none`. An object is never
-- taken back here: `shared_ptr` frees one only when no pointer leads to it.
pub mod Laws
use xmlbeansxx.Prelude.{
  ℕ, ◌+◌, [], Option, none, some, Bool, true, false, ◌==◌, if◌then◌else◌, Text,
}
use xmlbeansxx.Dict.{ElemDict}

-- The class of an object: `Contents`, or `StringContents` with its text.
pub data Kind : Type 0 where
  plain : Kind
  text : Text → Kind

-- `st` is the address of the object's SchemaType.
pub record Node : Type 0 where
  pub attrs : ElemDict ℕ
  pub elems : ElemDict ℕ
  pub st : ℕ
  pub kind : Kind

pub record Heap : Type 0 where
  pub cell : ℕ → Option Node
  pub next : ℕ

-- A read through a null or wild pointer, the exceptions of the library and the one of
-- `std::string::substr`, and a recursion that is cut off by the number of calls it was allowed.
pub data Fault : Type 0 where
  bad_pointer : Fault
  illegal_state : Fault
  null_ptr_exception : Fault
  beans_exception : Fault
  not_implemented : Fault
  out_of_range : Fault
  too_deep : Fault
  xml_exception : Fault
  xml_parse_exception : Fault
  class_cast_exception : Fault

pub data Return (A : Type 0) : Type 0 where
  ok : A → Return A
  fault : Fault → Return A

-- A call returns a value or a fault, and leaves a heap in both cases.
abbrev pub M : Type 0 → Type 0
M A = Heap → Return A × Heap

abbrev pub and_then : {A B : Type 0} → Return A × Heap → (A → M B) → Return B × Heap
and_then (ok a, h) f = f a h
and_then (fault e, h) f = (fault e, h)

infixl 5 ◌>>=◌ ◌>>◌
abbrev pub ◌>>=◌ : {A B : Type 0} → M A → (A → M B) → M B
◌>>=◌ m f h = and_then (m h) f

abbrev pub ◌>>◌ : {A B : Type 0} → M A → M B → M B
m >> k = m >>= λ _. k

abbrev pub return : {A : Type 0} → A → M A
return a h = (ok a, h)

abbrev pub fail : {A : Type 0} → Fault → M A
fail e h = (fault e, h)

-- `p->…` for a shared pointer.
abbrev pub deref : Option ℕ → M ℕ
deref none = fail bad_pointer
deref (some p) = return p

abbrev pub node_of : Option Node → Heap → Return Node × Heap
node_of none h = (fault bad_pointer, h)
node_of (some n) h = (ok n, h)

abbrev pub load : ℕ → M Node
load p h = node_of (h.cell p) h

unfoldable pub update : (ℕ → Option Node) → ℕ → Node → ℕ → Option Node
update cell p n q = if p == q then some n else cell q

abbrev pub put_cell : Heap → ℕ → Node → Heap
put_cell h p n = record h { cell = update h.cell p n }

abbrev pub store : ℕ → Node → M (Unit {0})
store p n h = (ok tt, put_cell h p n)

-- `new`: the object stands at an address of its own.
abbrev pub alloc : Node → M ℕ
alloc n h = (ok h.next, record { cell = update h.cell h.next n; next = h.next + 1 })

abbrev pub plain_node : ℕ → Node
plain_node st = record { attrs = []; elems = []; st = st; kind = plain }

abbrev pub text_node : ℕ → Text → Node
text_node st value = record { attrs = []; elems = []; st = st; kind = text value }

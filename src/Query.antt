-- ===== src/Query.antt =====
-- The query expressions of src/xmlbeansxx/Query.h and Query.cpp: their values and truth at an object,
-- and `query`, which finds an element by one. A node of a query is its class; a null pointer to one
-- is a node of its own. An object is the pointer to its contents.
mod Examples
use xmlbeansxx.Prelude.{
  ℕ, zero, suc, List, [], ◌∷◌, ◌++◌, Option, none, some, Bool, true, false, not, ◌||◌,
  if◌then◌else◌, Text, codes, text_eq, text_lt,
}
use xmlbeansxx.Dict.{ElemDict, DictEl}
use xmlbeansxx.Heap.{bad_pointer, M, ◌>>=◌, return, fail}
use xmlbeansxx.Walker.{get_attr_objects, get_elems}

pub data Operator : Type 0 where
  op_and : Operator
  op_or : Operator
  op_eq : Operator
  op_not : Operator
  op_le : Operator
  op_ge : Operator
  op_lt : Operator
  op_gt : Operator

pub data QueryNode : Type 0 where
  null_node : QueryNode
  query_expr : QueryNode → Operator → QueryNode → QueryNode
  query_string : Text → QueryNode
  query_attribute : Text → QueryNode
  query_element : Text → QueryNode → QueryNode

-- `findAttr`: the first attribute with that local part.
abbrev pub first_attr : Text → ElemDict ℕ → Option ℕ
first_attr name [] = none
first_attr name (it ∷ rest) =
    let later = first_attr name rest in if text_eq it.name.local_part name then it.value else later

unfoldable pub find_attr : Option ℕ → Text → M (Option ℕ)
find_attr none name = return none
find_attr (some p) name = do attrs ← get_attr_objects (some p); return (first_attr name attrs)

-- `findElems`: every element for a star, or those with that local part.
abbrev pub values_by : Bool → Text → ElemDict ℕ → List (Option ℕ)
values_by all name [] = []
values_by all name (it ∷ rest) =
    let later = values_by all name rest in
    if all || text_eq it.name.local_part name then it.value ∷ later else later

unfoldable pub find_elems : Option ℕ → Text → M (List (Option ℕ))
find_elems none name =
    if text_eq name (codes "*")
    then (do elems ← get_elems none; return (values_by true name elems))
    else return []
find_elems (some p) name = do
  elems ← get_elems (some p)
  return (values_by (text_eq name (codes "*")) name elems)

-- The comparison of two values; the other operators do not compare.
abbrev pub compare : Operator → Text → Text → Bool
compare op_le a b = not (text_lt b a)
compare op_ge a b = not (text_lt a b)
compare op_lt a b = text_lt a b
compare op_gt a b = text_lt b a
compare op a b = text_eq a b

-- The two loops: whether some pair of values compares.
abbrev pub any_right : Operator → Text → List Text → Bool
any_right op a [] = false
any_right op a (b ∷ bval) = compare op a b || any_right op a bval

abbrev pub any_pair : Operator → List Text → List Text → Bool
any_pair op [] bval = false
any_pair op (a ∷ aval) bval = any_right op a bval || any_pair op aval bval

-- The two virtual functions of a node, `getBooleanValue` and `getValue`.
pub record Meaning : Type 0 where
  pub get_boolean_value : Option ℕ → M Bool
  pub get_value : Option ℕ → M (List Text)

abbrev pub is_nonempty : List Text → Bool
is_nonempty [] = false
is_nonempty (t ∷ l) = true

-- `QueryNode::getBooleanValue`, which the classes with a value inherit.
abbrev pub by_value : (Option ℕ → M (List Text)) → Meaning
by_value value = record {
  get_boolean_value = λ o. value o >>= λ l. return (is_nonempty l);
  get_value = value;
}

abbrev pub compared : Operator → Meaning → Meaning → Option ℕ → M Bool
compared oper a b o = do
  aval ← a.get_value o
  bval ← b.get_value o
  return (any_pair oper aval bval)

-- `QueryExpr::getBooleanValue`: the second operand only where the first does not decide.
abbrev pub expr_value : Operator → Meaning → Meaning → Option ℕ → M Bool
expr_value op_and a b o =
    a.get_boolean_value o >>= λ x. if x then b.get_boolean_value o else return false
expr_value op_or a b o =
    a.get_boolean_value o >>= λ x. if x then return true else b.get_boolean_value o
expr_value op_not a b o = b.get_boolean_value o >>= λ x. return (not x)
expr_value oper a b o = compared oper a b o

-- `canonical` is OrginalXmlObject and getCanonicalContent of an object, and `boolean_text` the
-- canonical content of an XmlBoolean, both of generated classes.
module _ (canonical : Option ℕ → M Text) (boolean_text : Bool → Text) where
  abbrev pub element_value : QueryNode → Meaning → ℕ → M (List Text)
  element_value null_node next q = canonical (some q) >>= λ t. return (t ∷ [])
  element_value (query_expr a oper b) next q = next.get_value (some q)
  element_value (query_string s) next q = next.get_value (some q)
  element_value (query_attribute name) next q = next.get_value (some q)
  element_value (query_element name n) next q = next.get_value (some q)

  -- The values of the elements, without the null pointers.
  abbrev pub element_values : (ℕ → M (List Text)) → List (Option ℕ) → M (List Text)
  element_values value [] = return []
  element_values value (none ∷ v) = element_values value v
  element_values value (some q ∷ v) = do
    l ← value q
    later ← element_values value v
    return (l ++ later)

  unfoldable pub meaning : QueryNode → Meaning
  meaning null_node = record {
    get_boolean_value = λ o. fail bad_pointer;
    get_value = λ o. fail bad_pointer;
  }
  meaning (query_expr a oper b) = record {
    get_boolean_value = expr_value oper (meaning a) (meaning b);
    get_value =
        λ o. expr_value oper (meaning a) (meaning b) o >>= λ x. return (boolean_text x ∷ []);
  }
  meaning (query_string str) = by_value (λ o. return (str ∷ []))
  meaning (query_attribute attr_name) =
      by_value (λ o. find_attr o attr_name >>= canonical >>= λ t. return (t ∷ []))
  meaning (query_element elem_name next) =
      let value = element_value next (meaning next) in
      by_value (λ o. find_elems o elem_name >>= element_values value)

  -- The loop of `query`.
  unfoldable pub first_match : (Option ℕ → M Bool) → List (Option ℕ) → M (Option ℕ)
  first_match test [] = return none
  first_match test (none ∷ v) = first_match test v
  first_match test (some q ∷ v) = do
    x ← test (some q)
    if x then return (some q) else first_match test v

  unfoldable pub query : Option ℕ → Text → QueryNode → M (Option ℕ)
  query o element_name query_expr' = do
    elems ← find_elems o element_name
    first_match (meaning query_expr').get_boolean_value elems

-- ===== src/Parser/Grammars/Leaks.antt =====
-- The objects of libxml2 that the grammars of LibXMLParser hold: src/xmlbeansxx/LibXMLParser.cpp.
use xmlbeansxx.Prelude.{
  ℕ, suc, ◌+◌, ◌*◌, ◌<◌, ◌≤◌, ◌≡◌, refl, ◌∙◌, ap, sym, subst, List, [], ◌∷◌, ◌++◌, none, some, true,
  length, arith,
}
use xmlbeansxx.Parser.Grammars.{
  Grammars, Report, Answers, Outcome, returns, init, remove, unload_grammars, unload_plugged,
  new_parser_ctxt, parse_schema, load_grammar, made,
}
use xmlbeansxx.Parser.Grammars.Messages.{error_texts, warning_texts, add_reports_lem}

-- Every live object was made, and the parser is not plugged.
abbrev pub Below : ℕ → List ℕ → Type 0
Below n [] = Unit
Below n (p ∷ l) = (p < n) × Below n l

Below-le : (n m : ℕ) (l : List ℕ) → n ≤ m → Below n l → Below m l
Below-le n m [] h i = tt
Below-le n m (p ∷ l) h (a, i) = (omega arith, Below-le n m l h i)

remove-Below : (n p : ℕ) (l : List ℕ) → n ≤ p → Below n l → remove p l ≡ l
unfolding remove
remove-Below n p [] h i = refl
remove-Below n p (q ∷ l) h (a, i) = ground (arith, remove-Below n p l h i)

-- libxml2 makes all three objects.
abbrev pub accepted : List Report → Answers
accepted reports = record {
  new_parser_ctxt = true;
  parses = true;
  new_valid_ctxt = true;
  reports = reports;
}

pub record Fresh (g : Grammars) : Type 0 where
  pub bounded : Below g.next g.live
  pub unplugged : g.schema_plug ≡ none

-- What a load leaves that libxml2 accepts.
abbrev pub loaded : List Report → Grammars → Grammars
loaded reports g = record {
  schema_parser_ctxt = some g.next;
  schema = some (g.next + 1);
  validation_ctxt = some (g.next + 1 + 1);
  schema_plug = none;
  errors = error_texts reports;
  warnings = warning_texts reports;
  live = (g.next + 1 + 1) ∷ (g.next + 1) ∷ g.next ∷ g.live;
  next = g.next + 1 + 1 + 1;
}

load_grammar-accepted :
    (reports : List Report) (g : Grammars)
    → g.schema_plug ≡ none
    → load_grammar (accepted reports) g ≡ (loaded reports g, returns)
unfolding load_grammar
load_grammar-accepted reports g h =
    ap (λ o. new_parser_ctxt (emptied (unload_plugged g o)) (accepted reports) true) h
    ∙ ap (λ k. parse_schema k (accepted reports) true)
        (add_reports_lem record (made (emptied g)) { schema_parser_ctxt = some g.next } reports)
    ∙ ap (λ o. (record (loaded reports g) { schema_plug = o }, returns)) h
  where
    emptied : Grammars → Grammars
    emptied k = record k { errors = []; warnings = [] }

Fresh-loaded : (reports : List Report) (g : Grammars) → Fresh g → Fresh (loaded reports g)
Fresh-loaded reports g h = record {
  bounded = (
    omega arith,
    (
      omega arith,
      (omega arith, Below-le g.next (g.next + 1 + 1 + 1) g.live (omega arith) h.bounded),
    ),
  );
  unplugged = refl;
}

-- The three objects of the last load are freed, and no other.
unload_grammars-loaded :
    (reports : List Report) (g : Grammars)
    → Fresh g
    → (unload_grammars (loaded reports g)).live ≡ g.live
unfolding unload_grammars remove
unload_grammars-loaded reports g h = ground (
  arith,
  remove-Below g.next g.next g.live (omega arith) h.bounded,
  remove-Below g.next (g.next + 1) g.live (omega arith) h.bounded,
  remove-Below g.next (g.next + 1 + 1) g.live (omega arith) h.bounded,
)

-- Grammars loaded one after another, without an unload between them.
unfoldable pub load_all : List (List Report) → Grammars → Grammars
load_all [] g = g
load_all (reports ∷ rest) g = load_all rest (load_grammar (accepted reports) g).0

length-load_all :
    (l : List (List Report)) (g : Grammars)
    → Fresh g
    → Fresh (load_all l g) × (length (load_all l g).live ≡ 3 * length l + length g.live)
unfolding load_all
length-load_all [] g h = (h, omega arith)
length-load_all (reports ∷ l) g h =
    subst
      (λ (r : Grammars × Outcome).
        Fresh (load_all l r.0)
        × (length (load_all l r.0).live ≡ 3 * suc (length l) + length g.live))
      (sym (load_grammar-accepted reports g h.unplugged))
      (let (fresh, size) = length-load_all l (loaded reports g) (Fresh-loaded reports g h) in
        (fresh, omega (arith, size)))

load_all-snoc :
    (l : List (List Report)) (reports : List Report) (g : Grammars)
    → load_all (l ++ reports ∷ []) g ≡ (load_grammar (accepted reports) (load_all l g)).0
unfolding load_all
load_all-snoc [] reports g = refl
load_all-snoc (r ∷ l) reports g = load_all-snoc l reports (load_grammar (accepted r) g).0

-- None of the four pointers of the parser leads to an object of libxml2.
abbrev pub NoPointers : Grammars → Type 0
NoPointers g =
    (g.schema_parser_ctxt ≡ none)
    × (g.schema ≡ none)
    × (g.validation_ctxt ≡ none)
    × (g.schema_plug ≡ none)

-- A new parser into which one grammar after another is loaded, each accepted by libxml2, and that
-- is then unloaded, has lost three objects of libxml2 for each grammar but the last: so many are
-- live, and all four pointers of the parser are NULL.
pub unload_grammars-load_all :
    (l : List (List Report)) (reports : List Report)
    → let g = unload_grammars (load_all (l ++ reports ∷ []) init) in
      (length g.live ≡ 3 * length l) × NoPointers g
unfolding init unload_grammars
unload_grammars-load_all l reports = (left, (refl, refl, refl, refl))
  where
    before : Grammars
    before = load_all l init

    left : length (unload_grammars (load_all (l ++ reports ∷ []) init)).live ≡ 3 * length l
    left =
        let (fresh, size) = length-load_all l init (record { bounded = tt; unplugged = refl }) in
        ap (λ g. length (unload_grammars g).live)
          (load_all-snoc l reports init
            ∙ ap (λ r. r.0) (load_grammar-accepted reports before fresh.unplugged))
        ∙ ap length (unload_grammars-loaded reports before fresh)
        ∙ omega (arith, size)

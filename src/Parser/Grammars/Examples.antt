-- ===== src/Parser/Grammars/Examples.antt =====
-- Grammars loaded and unloaded.
use xmlbeansxx.Prelude.{
  ◌*◌, ◌≡◌, refl, List, [], ◌∷◌, ◌++◌, none, true, false, length, replicate, codes,
}
use xmlbeansxx.Parser.Grammars.{
  Report, report_error, report_warning, Answers, throws, init, unload_grammars, load_grammar,
  add_reports, add_schema_validity_error, remove,
}
use xmlbeansxx.Parser.Grammars.Messages.{
  Op, load, unload, validate, apply_all, Kept, apply_all-Kept,
}
use xmlbeansxx.Parser.Grammars.Leaks.{accepted, load_all, NoPointers, unload_grammars-load_all}

-- A long report is cut at the end of the buffer, and an empty one is replaced.
abbrev reports : List Report
reports = report_error (replicate 1500 b'x') ∷ report_warning [] ∷ []

abbrev refused : Answers
refused = record {
  new_parser_ctxt = true;
  parses = false;
  new_valid_ctxt = true;
  reports = report_error (codes "bad") ∷ [];
}

abbrev ops : List Op
ops = load (accepted reports) ∷ validate reports ∷ load refused ∷ unload ∷ []

apply_all-Kept_example : Kept (apply_all ops init)
apply_all-Kept_example = apply_all-Kept ops

unload_grammars-load_all_example :
    let g = unload_grammars (load_all ((reports ∷ [] ∷ []) ++ [] ∷ []) init) in
    (length g.live ≡ 3 * 2) × NoPointers g
unload_grammars-load_all_example = unload_grammars-load_all (reports ∷ [] ∷ []) []

refused_schema :
    let (g, outcome) = load_grammar refused init in
    (outcome ≡ throws) × (g.live ≡ []) × (g.validation_ctxt ≡ none)
unfolding load_grammar unload_grammars add_reports init add_schema_validity_error remove
refused_schema = (refl, refl, refl)

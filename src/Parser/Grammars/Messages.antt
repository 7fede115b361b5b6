-- ===== src/Parser/Grammars/Messages.antt =====
-- The lists of errors and warnings of a parser: LibXMLParser.cpp and XmlParser.h in
-- src/xmlbeansxx.
use xmlbeansxx.Prelude.{
  ℕ, zero, suc, ◌≤◌, ◌≡◌, refl, ◌∙◌, ap, sym, List, [], ◌∷◌, ◌++◌, append_assoc, append-nil, Option,
  none, some, Bool, true, false, ◌==◌, if◌then◌else◌, length, take, Text, codes, arith,
}
use xmlbeansxx.Parser.Grammars.{
  Grammars, Report, report_error, report_warning, Answers, init, in_buffer, add_reports,
  add_schema_validity_error, add_schema_validity_warning, unload_grammars, unload_plugged,
  new_valid_ctxt, parse_schema, new_parser_ctxt, load_grammar, made,
}

-- The messages of the reports of one kind.
unfoldable pub error_texts : List Report → List Text
error_texts [] = []
error_texts (report_error msg ∷ reports) =
    (if length msg == 0 then codes "Can't create schema validity error!" else in_buffer msg)
    ∷ error_texts reports
error_texts (report_warning msg ∷ reports) = error_texts reports

unfoldable pub warning_texts : List Report → List Text
warning_texts [] = []
warning_texts (report_error msg ∷ reports) = warning_texts reports
warning_texts (report_warning msg ∷ reports) =
    (if length msg == 0 then codes "Can't create schema validity warning!" else in_buffer msg)
    ∷ warning_texts reports

pub add_reports_lem :
    (g : Grammars) (reports : List Report)
    → add_reports g reports ≡ record g {
      errors = g.errors ++ error_texts reports;
      warnings = g.warnings ++ warning_texts reports;
    }
unfolding add_reports error_texts warning_texts add_schema_validity_error
    add_schema_validity_warning
add_reports_lem g [] =
    ap (λ (p : List Text × List Text). record g { errors = p.0; warnings = p.1 })
      {x = (g.errors, g.warnings)} (cc (sym (append-nil g.errors), sym (append-nil g.warnings)))
add_reports_lem g (report_error msg ∷ reports) =
    add_reports_lem (add_schema_validity_error g msg) reports
    ∙ ap (λ l. record g { errors = l; warnings = g.warnings ++ warning_texts reports })
        (append_assoc g.errors _ (error_texts reports))
add_reports_lem g (report_warning msg ∷ reports) =
    add_reports_lem (add_schema_validity_warning g msg) reports
    ∙ ap (λ l. record g { errors = g.errors ++ error_texts reports; warnings = l })
        (append_assoc g.warnings _ (warning_texts reports))

-- No message is longer than the buffer.
abbrev pub Short : List Text → Type 0
Short [] = Unit
Short (msg ∷ l) = (length msg ≤ 1023) × Short l

Short-append : (k l : List Text) → Short k → Short l → Short (k ++ l)
Short-append [] l h i = i
Short-append (msg ∷ k) l (a, h) i = (a, Short-append k l h i)

length-take : (n : ℕ) (s : Text) → length (take n s) ≤ n
length-take zero s = omega arith
length-take (suc n) [] = omega arith
length-take (suc n) (c ∷ s) = omega (arith, length-take n s)

short_message :
    (s : Text) (msg : Text)
    → length s ≤ 1023
    → length (if length msg == 0 then s else in_buffer msg) ≤ 1023
short_message s msg h = ground (arith, length-take 1023 msg)

Short-error_texts : (reports : List Report) → Short (error_texts reports)
unfolding error_texts
Short-error_texts [] = tt
Short-error_texts (report_error msg ∷ reports) = (
  short_message (codes "Can't create schema validity error!") msg (omega arith),
  Short-error_texts reports,
)
Short-error_texts (report_warning msg ∷ reports) = Short-error_texts reports

Short-warning_texts : (reports : List Report) → Short (warning_texts reports)
unfolding warning_texts
Short-warning_texts [] = tt
Short-warning_texts (report_error msg ∷ reports) = Short-warning_texts reports
Short-warning_texts (report_warning msg ∷ reports) = (
  short_message (codes "Can't create schema validity warning!") msg (omega arith),
  Short-warning_texts reports,
)

-- The messages are short, and the parser is not plugged into a schema.
pub record Kept (g : Grammars) : Type 0 where
  pub short_errors : Short g.errors
  pub short_warnings : Short g.warnings
  pub unplugged : g.schema_plug ≡ none

Kept-add_reports : (g : Grammars) (reports : List Report) → Kept g → Kept (add_reports g reports)
Kept-add_reports g reports h = rw (add_reports_lem g reports) (record {
  short_errors =
      Short-append g.errors (error_texts reports) h.short_errors (Short-error_texts reports);
  short_warnings =
      Short-append g.warnings (warning_texts reports) h.short_warnings
        (Short-warning_texts reports);
  unplugged = h.unplugged;
})

Kept-unload_grammars : (g : Grammars) → Kept g → Kept (unload_grammars g)
unfolding unload_grammars
Kept-unload_grammars g h = record {
  short_errors = h.short_errors;
  short_warnings = h.short_warnings;
  unplugged = refl;
}

Kept-new_valid_ctxt : (g : Grammars) (b : Bool) → Kept g → Kept (new_valid_ctxt g b).0
Kept-new_valid_ctxt g true h = record {
  short_errors = h.short_errors;
  short_warnings = h.short_warnings;
  unplugged = h.unplugged;
}
Kept-new_valid_ctxt g false h =
    Kept-unload_grammars record g { validation_ctxt = none }
      (record {
        short_errors = h.short_errors;
        short_warnings = h.short_warnings;
        unplugged = h.unplugged;
      })

Kept-parse_schema : (g : Grammars) (a : Answers) (b : Bool) → Kept g → Kept (parse_schema g a b).0
Kept-parse_schema g a true h =
    Kept-new_valid_ctxt record (made g) { schema = some g.next } a.new_valid_ctxt
      (record {
        short_errors = h.short_errors;
        short_warnings = h.short_warnings;
        unplugged = h.unplugged;
      })
Kept-parse_schema g a false h =
    Kept-unload_grammars record g { schema = none }
      (record {
        short_errors = h.short_errors;
        short_warnings = h.short_warnings;
        unplugged = h.unplugged;
      })

Kept-new_parser_ctxt :
    (g : Grammars) (a : Answers) (b : Bool) → Kept g → Kept (new_parser_ctxt g a b).0
Kept-new_parser_ctxt g a true h = Kept-parse_schema (add_reports g' a.reports) a a.parses (
    Kept-add_reports g' a.reports (record {
      short_errors = h.short_errors;
      short_warnings = h.short_warnings;
      unplugged = h.unplugged;
    }))
  where
    g' : Grammars
    g' = record (made g) { schema_parser_ctxt = some g.next }
Kept-new_parser_ctxt g a false h = record {
  short_errors = h.short_errors;
  short_warnings = h.short_warnings;
  unplugged = h.unplugged;
}

unplugged-unload_plugged :
    (g : Grammars) (o : Option ℕ) → g.schema_plug ≡ o → (unload_plugged g o).schema_plug ≡ none
unfolding unload_grammars
unplugged-unload_plugged g none e = e
unplugged-unload_plugged g (some p) e = refl

Kept-load_grammar : (a : Answers) (g : Grammars) → Kept (load_grammar a g).0
unfolding load_grammar
Kept-load_grammar a g =
    Kept-new_parser_ctxt record (unload_plugged g g.schema_plug) { errors = []; warnings = [] } a
      a.new_parser_ctxt
      (record {
        short_errors = tt;
        short_warnings = tt;
        unplugged = unplugged-unload_plugged g g.schema_plug refl;
      })

-- What is done to the grammars of a parser: `loadGrammar`, `unloadGrammars`, and a validation
-- that reports.
pub data Op : Type 0 where
  load : Answers → Op
  unload : Op
  validate : List Report → Op

unfoldable pub apply : Op → Grammars → Grammars
apply (load a) g = (load_grammar a g).0
apply unload g = unload_grammars g
apply (validate reports) g = add_reports g reports

unfoldable pub apply_all : List Op → Grammars → Grammars
apply_all [] g = g
apply_all (op ∷ ops) g = apply_all ops (apply op g)

Kept-apply : (op : Op) (g : Grammars) → Kept g → Kept (apply op g)
unfolding apply
Kept-apply (load a) g h = Kept-load_grammar a g
Kept-apply unload g h = Kept-unload_grammars g h
Kept-apply (validate reports) g h = Kept-add_reports g reports h

Kept-apply_all : (ops : List Op) (g : Grammars) → Kept g → Kept (apply_all ops g)
unfolding apply_all
Kept-apply_all [] g h = h
Kept-apply_all (op ∷ ops) g h = Kept-apply_all ops (apply op g) (Kept-apply op g h)

-- Whatever grammars are loaded and unloaded in a new parser, successfully or not, and whatever
-- libxml2 reports of them, no message that is kept is longer than 1023 bytes, and the parser is
-- never plugged into a schema.
pub apply_all-Kept : (ops : List Op) → Kept (apply_all ops init)
unfolding init
apply_all-Kept ops =
    Kept-apply_all ops init (record { short_errors = tt; short_warnings = tt; unplugged = refl })

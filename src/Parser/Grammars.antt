-- ===== src/Parser/Grammars.antt =====
-- The schema grammars of LibXMLParser (src/xmlbeansxx/LibXMLParser.cpp): the four pointers to
-- objects of libxml2, and the lists of errors and warnings of EmptyParser (XmlParser.h). An object
-- of libxml2 is a number, NULL is `none`; `live` are the objects made and not yet freed.
pub mod Messages
pub mod Leaks
mod Examples
use xmlbeansxx.Prelude.{
  ℕ, ◌+◌, List, [], ◌∷◌, ◌++◌, Option, none, some, Bool, true, false, ◌==◌, if◌then◌else◌, take,
  length, Text, codes,
}

pub record Grammars : Type 0 where
  pub schema_parser_ctxt : Option ℕ
  pub schema : Option ℕ
  pub validation_ctxt : Option ℕ
  pub schema_plug : Option ℕ
  pub errors : List Text
  pub warnings : List Text
  pub live : List ℕ
  pub next : ℕ

-- `init`, of a parser that is new.
unfoldable pub init : Grammars
init = record {
  schema_parser_ctxt = none;
  schema = none;
  validation_ctxt = none;
  schema_plug = none;
  errors = [];
  warnings = [];
  live = [];
  next = 0;
}

abbrev pub add_error : Grammars → Text → Grammars
add_error g msg = record g { errors = g.errors ++ msg ∷ [] }

abbrev pub add_warning : Grammars → Text → Grammars
add_warning g msg = record g { warnings = g.warnings ++ msg ∷ [] }

-- What vsnprintf leaves in the buffer of 1024 bytes, whose last byte is its end.
abbrev pub in_buffer : Text → Text
in_buffer msg = take 1023 msg

unfoldable pub add_schema_validity_error : Grammars → Text → Grammars
add_schema_validity_error g msg =
    add_error g
      (if length msg == 0 then codes "Can't create schema validity error!" else in_buffer msg)

unfoldable pub add_schema_validity_warning : Grammars → Text → Grammars
add_schema_validity_warning g msg =
    add_warning g
      (if length msg == 0 then codes "Can't create schema validity warning!" else in_buffer msg)

-- What libxml2 reports of a schema or a document, by the formatted text.
pub data Report : Type 0 where
  report_error : Text → Report
  report_warning : Text → Report

unfoldable pub add_reports : Grammars → List Report → Grammars
add_reports g [] = g
add_reports g (report_error msg ∷ reports) = add_reports (add_schema_validity_error g msg) reports
add_reports g (report_warning msg ∷ reports) =
    add_reports (add_schema_validity_warning g msg) reports

-- The object is freed, where the pointer is not NULL.
unfoldable pub remove : ℕ → List ℕ → List ℕ
remove p [] = []
remove p (q ∷ live) = let rest = remove p live in if p == q then rest else q ∷ rest

abbrev pub release : Option ℕ → List ℕ → List ℕ
release none live = live
release (some p) live = remove p live

unfoldable pub unload_grammars : Grammars → Grammars
unload_grammars g = record g {
  schema_parser_ctxt = none;
  schema = none;
  validation_ctxt = none;
  schema_plug = none;
  live =
      release g.schema_parser_ctxt
        (release g.schema (release g.validation_ctxt (release g.schema_plug g.live)));
}

-- What libxml2 answers while a grammar is loaded: which of the three objects it makes, and what
-- it reports of the schema.
pub record Answers : Type 0 where
  pub new_parser_ctxt : Bool
  pub parses : Bool
  pub new_valid_ctxt : Bool
  pub reports : List Report

-- `throws` is a BeansException.
pub data Outcome : Type 0 where
  returns : Outcome
  throws : Outcome

abbrev pub made : Grammars → Grammars
made g = record g { live = g.next ∷ g.live; next = g.next + 1 }

abbrev pub new_valid_ctxt : Grammars → Bool → Grammars × Outcome
new_valid_ctxt g true = (record (made g) { validation_ctxt = some g.next }, returns)
new_valid_ctxt g false = (unload_grammars record g { validation_ctxt = none }, throws)

abbrev pub parse_schema : Grammars → Answers → Bool → Grammars × Outcome
parse_schema g a true = new_valid_ctxt (record (made g) { schema = some g.next }) a.new_valid_ctxt
parse_schema g a false = (unload_grammars record g { schema = none }, throws)

abbrev pub new_parser_ctxt : Grammars → Answers → Bool → Grammars × Outcome
new_parser_ctxt g a true =
    parse_schema (add_reports (record (made g) { schema_parser_ctxt = some g.next }) a.reports) a
      a.parses
new_parser_ctxt g a false = (record g { schema_parser_ctxt = none }, throws)

abbrev pub unload_plugged : Grammars → Option ℕ → Grammars
unload_plugged g none = g
unload_plugged g (some p) = unload_grammars g

unfoldable pub load_grammar : Answers → Grammars → Grammars × Outcome
load_grammar a g =
    new_parser_ctxt (record (unload_plugged g g.schema_plug) { errors = []; warnings = [] }) a
      a.new_parser_ctxt

-- `loadGrammars` of several files: its loop is commented out.
unfoldable pub load_grammars : List Text → Grammars → Grammars
load_grammars files g = g

-- ===== src/Diags.antt =====
-- crates/plat-diags/src/lib.rs: spans, diagnostics and the error type of the front end. The colour
-- of a label and `report`, which prints by the ariadne crate, are left out.
use plat.Base.{ℕ, List, [], ◌∷◌, ◌++◌, Option, none, some, Text, codes}

pub record Span : Type 0 where
  pub start : ℕ
  pub end : ℕ

abbrev pub new : ℕ → ℕ → Span
new start end = record { start = start; end = end }

pub data Severity : Type 0 where
  error warning note : Severity

pub data ErrorCategory : Type 0 where
  lexical syntax type visibility module_ runtime : ErrorCategory

pub record DiagnosticLabel : Type 0 where
  pub span : Span
  pub message : Text

pub record Diagnostic : Type 0 where
  pub severity : Severity
  pub category : ErrorCategory
  pub code : Option Text
  pub message : Text
  pub filename : Text
  pub primary_label : DiagnosticLabel
  pub secondary_labels : List DiagnosticLabel
  pub help : Option Text
  pub notes : List Text

pub data DiagnosticError : Type 0 where
  syntax type runtime : Text → DiagnosticError
  rich : Diagnostic → DiagnosticError

unfoldable pub error_of : ErrorCategory → Text → Span → Text → Diagnostic
error_of category filename span message = record {
  severity = Severity.error;
  category = category;
  code = none;
  message = message;
  filename = filename;
  primary_label = record { span = span; message = message };
  secondary_labels = [];
  help = none;
  notes = [];
}

unfoldable pub with_code : Text → Diagnostic → Diagnostic
with_code code d = record d { code = some code }

unfoldable pub with_label : Text → Diagnostic → Diagnostic
with_label message d = record d {
  primary_label = record { span = d.primary_label.span; message = message };
}

unfoldable pub with_secondary_label : Span → Text → Diagnostic → Diagnostic
with_secondary_label span message d = record d {
  secondary_labels = d.secondary_labels ++ (record { span = span; message = message } ∷ []);
}

unfoldable pub with_help : Text → Diagnostic → Diagnostic
with_help help d = record d { help = some help }

unfoldable pub with_note : Text → Diagnostic → Diagnostic
with_note message d = record d { notes = d.notes ++ message ∷ [] }

unfoldable pub syntax_error : Text → Span → Text → Diagnostic
unfolding error_of
syntax_error = error_of ErrorCategory.syntax

unfoldable pub to_diagnostic : DiagnosticError → Text → Span → Diagnostic
unfolding error_of
to_diagnostic (DiagnosticError.syntax msg) filename span =
    error_of ErrorCategory.syntax filename span msg
to_diagnostic (DiagnosticError.type msg) filename span =
    error_of ErrorCategory.type filename span msg
to_diagnostic (DiagnosticError.runtime msg) filename span =
    error_of ErrorCategory.runtime filename span msg
to_diagnostic (DiagnosticError.rich d) filename span = d

-- `impl Display for DiagnosticError`
unfoldable pub display : DiagnosticError → Text
display (DiagnosticError.syntax msg) = codes "Syntax error: " ++ msg
display (DiagnosticError.type msg) = codes "Type error: " ++ msg
display (DiagnosticError.runtime msg) = codes "Runtime error: " ++ msg
display (DiagnosticError.rich d) = d.message

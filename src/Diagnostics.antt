-- ===== src/Diagnostics.antt =====
-- include/diagnostics.hpp. A path is its text.
use howlinux.Base.{Bool, true, false, List, [], ◌++◌, Bytes, codes, any, is_empty, if◌then◌else◌}

-- `DiagnosticSeverity`
pub data Severity : Type 0 where
  warning error : Severity

-- `Diagnostic`
pub record Diagnostic : Type 0 where
  pub severity : Severity
  pub path : Bytes
  pub entry_id : Bytes
  pub message : Bytes

abbrev pub is_error : Severity → Bool
is_error warning = false
is_error error = true

-- `hasErrors` of src/concepts.cpp
unfoldable pub has_errors : List Diagnostic → Bool
has_errors diagnostics = any (λ (d : Diagnostic). is_error d.severity) diagnostics

-- `formatDiagnostic` of src/knowledge.cpp
unfoldable pub format_diagnostic : Diagnostic → Bytes
format_diagnostic diagnostic =
    (if is_error diagnostic.severity then codes "error" else codes "warning")
    ++ ((if is_empty diagnostic.path then [] else codes ": " ++ diagnostic.path)
        ++ ((if is_empty diagnostic.entry_id
              then []
              else codes " (entry '" ++ (diagnostic.entry_id ++ codes "')"))
            ++ (if is_empty diagnostic.message then [] else codes ": " ++ diagnostic.message)))

-- ===== src/App/Outcome.antt =====
-- What `runApplication` of src/app.cpp asks of its surroundings, and how a run of it ends.
use howlinux.Base.{ℕ, Bool, true, false, List, [], Option, Bytes}
use howlinux.Diagnostics.{Diagnostic, format_diagnostic}
use howlinux.Files.{FileSystem}
use howlinux.Cli.Options.{CliCommand}
use howlinux.Concepts.Load.{ConceptFile}
use howlinux.Markdown.Text.{terminal_color_enabled}
use howlinux.Render.Write.{Writer, ◌<<◌, put, put_each}
use howlinux.Render.Human.{newline}

-- What the program asks of its surroundings: the files, `HOWLINUX_KNOWLEDGE`, the two build settings,
-- `NO_COLOR`, `TERM` and whether the output is a terminal, and what `ConceptDictionary::load` finds at a
-- path.
pub record Surroundings : Type 0 where
  pub files : FileSystem
  pub variable : Option Bytes
  pub version : Bytes
  pub data_directory : Bytes
  pub no_color : Option Bytes
  pub term : Option Bytes
  pub is_terminal : Bool
  pub concept_file : Bytes → ConceptFile

-- What `terminalColorEnabled` answers.
abbrev pub terminal_color : Surroundings → Bool
terminal_color surroundings =
    terminal_color_enabled surroundings.no_color surroundings.term surroundings.is_terminal

-- The exit code, and what was written to the two streams.
pub record Outcome : Type 0 where
  pub exit_code : ℕ
  pub output : Bytes
  pub errors : Bytes

-- A run returns, or it ends by an exception or a null pointer, or the walk over the files is out of fuel.
pub data Ending : Type 0 where
  returned : Outcome → Ending
  broken out_of_fuel : Ending

abbrev pub ends : ℕ → Writer → Writer → Ending
ends exit_code output errors =
    returned (record { exit_code = exit_code; output = output []; errors = errors [] })

-- `kSuccess`, `kNoConfidentResult`, `kInvalidArguments` and `kConfigurationError`
abbrev pub success : ℕ
success = 0

abbrev pub no_confident_result : ℕ
no_confident_result = 1

abbrev pub invalid_arguments : ℕ
invalid_arguments = 2

abbrev pub configuration_error : ℕ
configuration_error = 3

-- `emitDiagnostics`
unfoldable pub emit_diagnostics : List Diagnostic → Writer
unfolding format_diagnostic
emit_diagnostics diagnostics = put_each (λ d. put (format_diagnostic d) << newline) diagnostics

abbrev pub is_validate : CliCommand → Bool
is_validate command = elim command [ CliCommand.validate ↦ true | _ ↦ false ]

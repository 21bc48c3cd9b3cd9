-- ===== src/App/Json/Line.antt =====
-- With `--json`, a reader of JSON takes what a run of `runApplication` of src/app.cpp writes to its output.
use howlinux.Base.{ℕ, true, List, ◌≡◌, ◌∙◌, ap, Bytes}
use howlinux.Cli.Parse.{parse_command_line}
use howlinux.Search.Doubles.{Doubles}
use howlinux.Render.Json.{Printing}
use howlinux.Render.Json.Search.{IsPrinting}
use howlinux.Render.Json.Grammar.{is_json_line}
use howlinux.Render.Json.Accepted.{print-is_json_line}
use howlinux.App.{run_application}
use howlinux.App.Outcome.{Surroundings, Outcome, returned}
use howlinux.App.Json.{IsJson, reads_knowledge, run_application-IsJson}

IsJson-is_json_line : (output : Bytes) → IsJson output → is_json_line output ≡ true
IsJson-is_json_line output h = ap is_json_line h.1 ∙ print-is_json_line h.0

-- Where the command line is accepted, asks for JSON, and its command reads the knowledge base: a reader of
-- JSON that knows nothing of this program takes what a run that returns has written to its output for one
-- JSON value and a newline, in every case, those of an unavailable knowledge base, of unusable concepts and
-- of an unknown identifier included. What a stream prints of a finite double is taken to be a number of
-- JSON.
pub run_application-is_json_line :
    (N : Doubles) (P : Printing N) (w : IsPrinting N P) (surroundings : Surroundings) (fuel : ℕ)
    → (arguments : List Bytes) (executable_path current_directory : Bytes) (outcome : Outcome)
    → (parse_command_line arguments).ok ≡ true
    → (parse_command_line arguments).options.json ≡ true
    → reads_knowledge (parse_command_line arguments).options.command ≡ true
    → run_application N P surroundings fuel arguments executable_path current_directory
      ≡ returned outcome
    → is_json_line outcome.output ≡ true
run_application-is_json_line N P w surroundings fuel arguments executable_path current_directory
      outcome ok json reads same =
    IsJson-is_json_line outcome.output (
      run_application-IsJson N P w surroundings fuel arguments executable_path current_directory
        outcome ok json reads same)

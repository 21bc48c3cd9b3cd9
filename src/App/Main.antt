-- ===== src/App/Main.antt =====
-- `main` of src/main.cpp.
use howlinux.Base.{ℕ, Bool, true, false, ◌&&◌, List, [], ◌∷◌, if◌then◌else◌, Bytes, codes}
use howlinux.Yaml.{Answer, answer, failed}
use howlinux.Cli.Options.{CliParseResult, CliCommand}
use howlinux.Cli.Parse.{parse_command_line}
use howlinux.Search.Doubles.{Doubles}
use howlinux.Render.Write.{◌<<◌, put, nothing}
use howlinux.Render.Json.{Printing}
use howlinux.Render.Human.{newline}
use howlinux.App.{run_application}
use howlinux.App.Outcome.{
  Surroundings, Ending, returned, broken, out_of_fuel, ends, configuration_error,
}

-- `argv`: the name of the program and the arguments.
abbrev pub program_of : List Bytes → Bytes
program_of [] = codes "howlinux"
program_of (program ∷ arguments) = program

abbrev pub arguments_of : List Bytes → List Bytes
arguments_of [] = []
arguments_of (program ∷ arguments) = arguments

abbrev pub needs_no_directory : CliParseResult → Bool
needs_no_directory parsed = parsed.ok && elim parsed.options.command [
  | CliCommand.help ↦ true
  | CliCommand.version ↦ true
  | _ ↦ false
]

-- `read_symlink("/proc/self/exe")`
abbrev pub executable_of : List Bytes → Answer Bytes → Bytes
executable_of argv (failed message) = program_of argv
executable_of argv (answer []) = program_of argv
executable_of argv (answer (c ∷ path)) = c ∷ path

-- What is caught: the text of the exception, where a run ends by one.
abbrev pub caught : Bytes → Ending → Ending
caught what (returned outcome) = returned outcome
caught what broken =
    ends configuration_error nothing (put (codes "Fatal error: ") << put what << newline)
caught what out_of_fuel = out_of_fuel

module _ (N : Doubles) (P : Printing N) where
  -- `main`, by the answers of `current_path` and of `read_symlink`.
  unfoldable pub run_main :
      Surroundings → ℕ → Bytes → List Bytes → Answer Bytes → Answer Bytes → Ending
  unfolding run_application
  run_main surroundings fuel what argv (failed message) executable =
      if needs_no_directory (parse_command_line (arguments_of argv))
      then caught what
          (run_application N P surroundings fuel (arguments_of argv) (program_of argv) (codes "."))
      else ends configuration_error nothing (
          put (codes "Configuration error: cannot determine current directory: ")
          << put message
          << newline)
  run_main surroundings fuel what argv (answer current_directory) executable = caught what (
      run_application N P surroundings fuel (arguments_of argv) (executable_of argv executable)
        current_directory)

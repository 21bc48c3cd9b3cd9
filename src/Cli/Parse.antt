-- ===== src/Cli/Parse.antt =====
-- `parseCommandLine` of src/cli.cpp.
pub mod Words
pub mod Steps
pub mod Valid
pub mod Scan
use howlinux.Base.{
  ℕ, zero, suc, ◌+◌, Bool, true, false, not, ◌&&◌, ◌||◌, List, [], ◌∷◌, ◌++◌, ◌≡◌, refl, Option,
  none, some, ltb, ◌==◌, if◌then◌else◌, Bytes, codes, beq, is_empty, length, drop,
}
use howlinux.Cli.Options.{
  CliCommand, search, list, show, validate, help, version, CliOptions, CliParseResult,
  default_options,
}
use howlinux.Cli.Limit.{parse_limit}
use howlinux.Cli.Parse.Scan.{ParseState, start, failure, success, Scanned, scan, finished, returned}

-- `join`, of the values from `first` on.
unfoldable pub join : List Bytes → Bytes
join [] = []
join (value ∷ []) = value
join (value ∷ next ∷ values) = value ++ (b' ' ∷ join (next ∷ values))

abbrev pub search_for : CliOptions → List Bytes → CliParseResult
search_for options words = success (record options { command = search; query = join words })

unfoldable pub show_entry : CliOptions → List Bytes → CliParseResult
show_entry options (id ∷ []) = success (record options { command = show; entry_id = id })
show_entry options _ = failure options (codes "show requires exactly one entry ID")

unfoldable pub validate_path : CliOptions → List Bytes → CliParseResult
validate_path options [] = success (record options { command = validate })
validate_path options (path ∷ []) =
    if options.knowledge_path_explicit
    then failure options
        (codes "specify the validation path either positionally or with --knowledge")
    else success (record options {
      command = validate;
      knowledge_path = path;
      knowledge_path_explicit = true;
    })
validate_path options _ = failure options (codes "validate accepts at most one knowledge path")

-- The command that the first positional argument names; the others are `operands`.
unfoldable pub dispatch : CliOptions → Bytes → List Bytes → CliParseResult
unfolding join show_entry validate_path
dispatch options command operands =
    if beq command (codes "search")
    then (if is_empty operands
        then failure options (codes "search requires a query")
        else search_for options operands)
    else if beq command (codes "list")
    then (if is_empty operands
        then success (record options { command = list })
        else failure options (codes "list does not accept positional arguments"))
    else if beq command (codes "show")
    then show_entry options operands
    else if beq command (codes "validate")
    then validate_path options operands
    else search_for options (command ∷ operands)

-- Behind the loop.
unfoldable pub finish : ParseState → List Bytes → CliParseResult
unfolding dispatch
finish state [] = failure state.options (codes "missing query or command")
finish state (command ∷ operands) =
    if state.options.raw && state.options.json
    then failure state.options (codes "--raw and --json cannot be combined")
    else if state.force_implicit_query
    then search_for state.options (command ∷ operands)
    else dispatch state.options command operands

unfoldable pub conclude : Scanned → CliParseResult
unfolding finish
conclude (finished state) = finish state state.positional
conclude (returned result) = result

-- `parseCommandLine`
unfoldable pub parse_command_line : List Bytes → CliParseResult
unfolding scan conclude beq parse_limit
parse_command_line arguments = conclude (scan arguments start)

abbrev run : List Bytes → CliParseResult
run = parse_command_line

example :
    run (codes "--limit=7" ∷ codes "--json" ∷ codes "rename" ∷ codes "folder" ∷ [])
    ≡ success (record default_options { limit = 7; json = true; query = codes "rename folder" })
unfolding parse_command_line
example = refl

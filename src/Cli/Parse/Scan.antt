-- ===== src/Cli/Parse/Scan.antt =====
-- The loop of `parseCommandLine` of src/cli.cpp over the arguments.
use howlinux.Base.{
  ℕ, Bool, true, false, ◌||◌, List, [], ◌∷◌, ◌++◌, Option, none, some, ◌==◌, if◌then◌else◌, Bytes,
  codes, beq, is_empty,
}
use howlinux.Cli.Options.{help, version, CliOptions, CliParseResult, default_options}
use howlinux.Cli.Limit.{parse_limit}

-- The variables of the loop; `options` is `result.options`.
pub record ParseState : Type 0 where
  pub options : CliOptions
  pub positional : List Bytes
  pub parse_options : Bool
  pub force_implicit_query : Bool

abbrev pub start : ParseState
start = record {
  options = default_options;
  positional = [];
  parse_options = true;
  force_implicit_query = false;
}

abbrev pub failure : CliOptions → Bytes → CliParseResult
failure options message = record { ok = false; options = options; error = message }

abbrev pub success : CliOptions → CliParseResult
success options = record { ok = true; options = options; error = [] }

-- An option with a value.
pub data Valued : Type 0 where
  knowledge limit : Valued

-- What an argument asks for: to go on, to return, or to take a value.
pub data Step : Type 0 where
  next : ParseState → Step
  stop : CliParseResult → Step
  take_next : Valued → Step
  take_value : Valued → Bytes → Step

-- The text behind `prefix`, where a text starts with it: `rfind(prefix, 0) == 0` and `substr`.
unfoldable pub strip_prefix : Bytes → Bytes → Option Bytes
strip_prefix [] s = some s
strip_prefix (p ∷ prefix) [] = none
strip_prefix (p ∷ prefix) (c ∷ s) = if p == c then strip_prefix prefix s else none

abbrev pub add_positional : ParseState → Bytes → ParseState
add_positional state argument = record state { positional = state.positional ++ argument ∷ [] }

-- `argument.size() > 1 && argument.front() == '-'`
unfoldable pub looks_like_option : Bytes → Bool
looks_like_option [] = false
looks_like_option (c ∷ []) = false
looks_like_option (c ∷ d ∷ s) = c == b'-'

unfoldable pub unknown_or_positional : ParseState → Bytes → Step
unfolding looks_like_option
unknown_or_positional state argument =
    if looks_like_option argument
    then stop (
        failure state.options
          (codes "unknown option: " ++ (argument ++ codes " (use -- before query flags)")))
    else next (add_positional state argument)

-- The value behind `=`, or else the step that the other tests make.
unfoldable pub prefixed : Valued → Option Bytes → Step → Step
prefixed option (some value) other = take_value option value
prefixed option none other = other

-- The tests on `--limit`.
unfoldable pub limit_step : ParseState → Bytes → Step
unfolding strip_prefix unknown_or_positional prefixed
limit_step state argument =
    if beq argument (codes "--limit")
    then take_next limit
    else prefixed limit (strip_prefix (codes "--limit=") argument)
        (unknown_or_positional state argument)

-- The tests on `--knowledge`, and those behind them.
unfoldable pub valued_step : ParseState → Bytes → Step
unfolding strip_prefix limit_step prefixed
valued_step state argument =
    if beq argument (codes "--knowledge")
    then take_next knowledge
    else prefixed knowledge (strip_prefix (codes "--knowledge=") argument)
        (limit_step state argument)

-- One round of the loop while options are parsed.
unfoldable pub option_step : ParseState → Bytes → Step
unfolding valued_step
option_step state argument =
    if beq argument (codes "--")
    then next
        (record state { force_implicit_query = is_empty state.positional; parse_options = false })
    else if beq argument (codes "--help") || beq argument (codes "-h")
    then stop (success (record state.options { command = help }))
    else if beq argument (codes "--version") || beq argument (codes "-V")
    then stop (success (record state.options { command = version }))
    else if beq argument (codes "--explain")
    then next (record state { options = record state.options { explain = true } })
    else if beq argument (codes "--json")
    then next (record state { options = record state.options { json = true } })
    else if beq argument (codes "--raw")
    then next (record state { options = record state.options { raw = true } })
    else valued_step state argument

unfoldable pub step : ParseState → Bytes → Step
unfolding option_step
step state argument =
    if state.parse_options then option_step state argument else next (add_positional state argument)

-- An option's value: the state with it, or the result that is returned.
pub data Taken : Type 0 where
  taken : ParseState → Taken
  refused : CliParseResult → Taken

unfoldable pub set_limit : ParseState → Option ℕ → Taken
set_limit state none =
    refused (failure state.options (codes "--limit must be an integer from 1 to 100"))
set_limit state (some value) =
    taken (record state { options = record state.options { limit = value } })

unfoldable pub set_value : ParseState → Valued → Bytes → Taken
unfolding set_limit
set_value state knowledge value =
    if is_empty value
    then refused (failure state.options (codes "--knowledge requires a non-empty path"))
    else if state.options.knowledge_path_explicit
    then refused (failure state.options (codes "--knowledge may only be specified once"))
    else taken (record state {
      options = record state.options { knowledge_path = value; knowledge_path_explicit = true };
    })
set_value state limit value = set_limit state (parse_limit value)

unfoldable pub missing_value : ParseState → Valued → CliParseResult
missing_value state knowledge = failure state.options (codes "--knowledge requires a path")
missing_value state limit = failure state.options (codes "--limit requires an integer")

-- The loop's end: with the last state, or by a `return` inside.
pub data Scanned : Type 0 where
  finished : ParseState → Scanned
  returned : CliParseResult → Scanned

-- The loop over the arguments.
unfoldable pub scan : List Bytes → ParseState → Scanned
unfolding step set_value missing_value
scan [] state = finished state
scan (argument ∷ []) state = elim (step state argument) [
  | next state' ↦ finished state'
  | stop result ↦ returned result
  | take_next option ↦ returned (missing_value state option)
  | take_value option value ↦ elim (set_value state option value) [
    | taken state' ↦ finished state'
    | refused result ↦ returned result
  ]
]
scan (argument ∷ following ∷ arguments) state = elim (step state argument) [
  | next state' ↦ scan (following ∷ arguments) state'
  | stop result ↦ returned result
  | take_next option ↦ elim (set_value state option following) [
    | taken state' ↦ scan arguments state'
    | refused result ↦ returned result
  ]
  | take_value option value ↦ elim (set_value state option value) [
    | taken state' ↦ scan (following ∷ arguments) state'
    | refused result ↦ returned result
  ]
]

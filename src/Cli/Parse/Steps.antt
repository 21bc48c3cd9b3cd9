-- ===== src/Cli/Parse/Steps.antt =====
-- What one argument of `parseCommandLine` in src/cli.cpp keeps, and the results it can end in.
use howlinux.Base.{
  ℕ, ◌≤◌, Bool, true, false, ◌&&◌, ◌≡◌, ◌≢◌, ◌⊎◌, refl, Option, none, some, if◌then◌else◌, Bytes,
  codes, beq, is_empty, inl, inr,
}
use howlinux.Cli.Options.{help, version, CliOptions, CliParseResult, maximum_limit}
use howlinux.Cli.Limit.{parse_limit, parse_limit-range}
use howlinux.Cli.Parse.Scan.{
  ParseState, Valued, knowledge, limit, Step, next, stop, take_next, take_value, Taken, taken,
  refused, option_step, valued_step, limit_step, prefixed, strip_prefix, unknown_or_positional,
  step, set_limit, set_value, missing_value, Scanned, finished, returned, failure, success,
}

-- Options that a command can run with: the limit is in its range.
abbrev pub HasLimit : CliOptions → Type 0
HasLimit options = (1 ≤ options.limit) × (options.limit ≤ maximum_limit)

-- `--raw` and `--json` exclude one another, except for help and version.
abbrev pub IsExclusive : CliOptions → Type 0
IsExclusive options =
    (options.command ≢ help) → (options.command ≢ version) → (options.raw && options.json) ≡ false

-- A result: accepted without a message and with options to run with, or refused with a message.
pub record IsParsed (result : CliParseResult) : Type 0 where
  pub message : is_empty result.error ≡ result.ok
  pub limit : HasLimit result.options
  pub exclusive : result.ok ≡ true → IsExclusive result.options

-- What a step keeps, given a limit in its range before it.
pub data StepHolds : Step → Type 0 where
  goes_on : {state : ParseState} → HasLimit state.options → StepHolds (next state)
  stops : {result : CliParseResult} → IsParsed result → StepHolds (stop result)
  takes_next : {option : Valued} → StepHolds (take_next option)
  takes_value : {option : Valued} {value : Bytes} → StepHolds (take_value option value)

pub data TakenHolds : Taken → Type 0 where
  is_taken : {state : ParseState} → HasLimit state.options → TakenHolds (taken state)
  is_refused : {result : CliParseResult} → IsParsed result → TakenHolds (refused result)

pub data ScannedHolds : Scanned → Type 0 where
  is_finished : {state : ParseState} → HasLimit state.options → ScannedHolds (finished state)
  is_returned : {result : CliParseResult} → IsParsed result → ScannedHolds (returned result)

pub failure-IsParsed :
    (options : CliOptions) (message : Bytes)
    → is_empty message ≡ false
    → HasLimit options
    → IsParsed (failure options message)
failure-IsParsed options message e h = record { message = e; limit = h; exclusive = λ k. cc }

StepHolds-if : (b : Bool) (s t : Step) → StepHolds s → StepHolds t → StepHolds (if b then s else t)
StepHolds-if true s t h k = h
StepHolds-if false s t h k = k

unknown-holds :
    (state : ParseState) (a : Bytes)
    → HasLimit state.options
    → StepHolds (unknown_or_positional state a)
unfolding unknown_or_positional
unknown-holds state a h =
    StepHolds-if _ _ _ (stops (failure-IsParsed state.options _ refl h)) (goes_on h)

prefixed-holds :
    (option : Valued) (o : Option Bytes) (s : Step) → StepHolds s → StepHolds (prefixed option o s)
unfolding prefixed
prefixed-holds option none s h = h
prefixed-holds option (some value) s h = takes_value

limit-holds :
    (state : ParseState) (a : Bytes) → HasLimit state.options → StepHolds (limit_step state a)
unfolding limit_step
limit-holds state a h = StepHolds-if (beq a (codes "--limit")) (take_next limit) _ takes_next (
    prefixed-holds limit (strip_prefix (codes "--limit=") a) (unknown_or_positional state a)
      (unknown-holds state a h))

valued-holds :
    (state : ParseState) (a : Bytes) → HasLimit state.options → StepHolds (valued_step state a)
unfolding valued_step
valued-holds state a h =
    StepHolds-if (beq a (codes "--knowledge")) (take_next knowledge) _ takes_next (
      prefixed-holds knowledge (strip_prefix (codes "--knowledge=") a) (limit_step state a)
        (limit-holds state a h))

stops_early :
    (options : CliOptions)
    → (options.command ≡ help) ⊎ (options.command ≡ version)
    → HasLimit options
    → StepHolds (stop (success options))
stops_early options c h = stops {result = success options} (record {
  message = refl;
  limit = h;
  exclusive = λ _ n m. elim c [ inl e ↦ absurd (n e) | inr e ↦ absurd (m e) ];
})

help-holds :
    (options : CliOptions)
    → HasLimit options
    → StepHolds (stop (success (record options { command = help })))
help-holds options h = stops_early (record options { command = help }) (inl refl) h

version-holds :
    (options : CliOptions)
    → HasLimit options
    → StepHolds (stop (success (record options { command = version })))
version-holds options h = stops_early (record options { command = version }) (inr refl) h

option-holds :
    (state : ParseState) (a : Bytes) → HasLimit state.options → StepHolds (option_step state a)
unfolding option_step
option-holds state a h =
    search (StepHolds-if, goes_on, help-holds, version-holds, valued-holds) depth 12

pub step-holds :
    (state : ParseState) (a : Bytes) → HasLimit state.options → StepHolds (step state a)
unfolding step
step-holds state a h = StepHolds-if _ _ _ (option-holds state a h) (goes_on h)

set_limit-holds :
    (state : ParseState) (value : Bytes) (o : Option ℕ)
    → parse_limit value ≡ o
    → HasLimit state.options
    → TakenHolds (set_limit state o)
unfolding set_limit
set_limit-holds state value none e h = is_refused (failure-IsParsed state.options _ refl h)
set_limit-holds state value (some n) e h = is_taken (parse_limit-range value n e)

TakenHolds-if :
    (b : Bool) (s t : Taken) → TakenHolds s → TakenHolds t → TakenHolds (if b then s else t)
TakenHolds-if true s t h k = h
TakenHolds-if false s t h k = k

pub set_value-holds :
    (state : ParseState) (option : Valued) (value : Bytes)
    → HasLimit state.options
    → TakenHolds (set_value state option value)
unfolding set_value
set_value-holds state knowledge value h = search (
  TakenHolds-if,
  is_taken,
  is_refused,
  failure-IsParsed state.options (codes "--knowledge requires a non-empty path") refl,
  failure-IsParsed state.options (codes "--knowledge may only be specified once") refl,
)
set_value-holds state limit value h = set_limit-holds state value _ refl h

pub missing-holds :
    (state : ParseState) (option : Valued)
    → HasLimit state.options
    → IsParsed (missing_value state option)
unfolding missing_value
missing-holds state knowledge h = failure-IsParsed state.options _ refl h
missing-holds state limit h = failure-IsParsed state.options _ refl h

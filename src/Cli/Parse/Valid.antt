-- ===== src/Cli/Parse/Valid.antt =====
-- The results of `parseCommandLine` of src/cli.cpp, accepted and refused.
use howlinux.Base.{
  false, ◌&&◌, List, [], ◌∷◌, ◌≡◌, refl, arith, if◌then◌else◌, Bytes, codes, beq, is_empty,
  Bool-cases, inl, inr,
}
use howlinux.Cli.Options.{list, CliOptions}
use howlinux.Cli.Parse.Words.{scan-next}
use howlinux.Cli.Parse.{
  search_for, show_entry, validate_path, dispatch, finish, conclude, parse_command_line,
}
use howlinux.Cli.Parse.Scan.{
  ParseState, start, Step, Taken, taken, refused, step, Scanned, finished, returned, scan, failure,
  success,
}
use howlinux.Cli.Parse.Steps.{
  HasLimit, IsParsed, StepHolds, goes_on, stops, takes_next, takes_value, TakenHolds, is_taken,
  is_refused, ScannedHolds, is_finished, is_returned, failure-IsParsed, step-holds, set_value-holds,
  missing-holds,
}

-- The loop from every state with a limit in its range.
abbrev Scans : List Bytes → Type 0
Scans arguments =
    (state : ParseState) → HasLimit state.options → ScannedHolds (scan arguments state)

value-holds :
    {t : Taken}
    → TakenHolds t
    → (arguments : List Bytes) → Scans arguments
    → ScannedHolds
        (elim t [ taken state ↦ scan arguments state | refused result ↦ returned result ])
value-holds (is_taken {state} h) arguments go_on = go_on state h
value-holds (is_refused p) arguments go_on = is_returned p

finished-holds :
    {t : Taken}
    → TakenHolds t
    → ScannedHolds (elim t [ taken state ↦ finished state | refused result ↦ returned result ])
finished-holds (is_taken h) = is_finished h
finished-holds (is_refused p) = is_returned p

one-holds :
    {s : Step} (a : Bytes) (state : ParseState)
    → HasLimit state.options
    → StepHolds s
    → step state a ≡ s
    → ScannedHolds (scan (a ∷ []) state)
unfolding scan
one-holds a state h (goes_on k) e = rw (e, scan) (is_finished k)
one-holds a state h (stops p) e = rw (e, scan) (is_returned p)
one-holds a state h (takes_next {option}) e =
    rw (e, scan) (is_returned (missing-holds state option h))
one-holds a state h (takes_value {option} {value}) e =
    rw (e, scan) (finished-holds (set_value-holds state option value h))

more-holds :
    {s : Step} (a b : Bytes) (arguments : List Bytes) (state : ParseState)
    → HasLimit state.options
    → Scans (b ∷ arguments)
    → Scans arguments
    → StepHolds s
    → step state a ≡ s
    → ScannedHolds (scan (a ∷ b ∷ arguments) state)
unfolding scan
more-holds a b arguments state h p q (goes_on {state = state'} k) e =
    rw (scan-next a (b ∷ arguments) state state' e) (p state' k)
more-holds a b arguments state h p q (stops r) e = rw (e, scan) (is_returned r)
more-holds a b arguments state h p q (takes_next {option}) e =
    rw (e, scan) (value-holds (set_value-holds state option b h) arguments q)
more-holds a b arguments state h p q (takes_value {option} {value}) e =
    rw (e, scan) (value-holds (set_value-holds state option value h) (b ∷ arguments) p)

scan-holds : (arguments : List Bytes) → Scans arguments
scan-holds [] state h = unfold scan in is_finished h
scan-holds (a ∷ []) state h = one-holds a state h (step-holds state a h) refl
scan-holds (a ∷ b ∷ arguments) state h =
    more-holds a b arguments state h (scan-holds (b ∷ arguments)) (scan-holds arguments)
      (step-holds state a h) refl

success-IsParsed :
    (options : CliOptions)
    → HasLimit options
    → (options.raw && options.json) ≡ false
    → IsParsed (success options)
success-IsParsed options h e = record { message = refl; limit = h; exclusive = λ _ _ _. e }

module _ (options : CliOptions) (h : HasLimit options)
    (e : (options.raw && options.json) ≡ false) where
  show-IsParsed : (operands : List Bytes) → IsParsed (show_entry options operands)
  unfolding show_entry
  show-IsParsed [] = failure-IsParsed options _ refl h
  show-IsParsed (id ∷ []) = success-IsParsed _ h e
  show-IsParsed (id ∷ other ∷ operands) = failure-IsParsed options _ refl h

  validate-IsParsed : (operands : List Bytes) → IsParsed (validate_path options operands)
  unfolding validate_path
  validate-IsParsed [] = success-IsParsed _ h e
  validate-IsParsed (path ∷ []) = elim (Bool-cases options.knowledge_path_explicit) [
    | inl k ↦ simp k (failure-IsParsed options _ refl h)
    | inr k ↦ simp k (success-IsParsed _ h e)
  ]
  validate-IsParsed (path ∷ other ∷ operands) = failure-IsParsed options _ refl h

  dispatch-IsParsed :
      (command : Bytes) (operands : List Bytes) → IsParsed (dispatch options command operands)
  unfolding dispatch
  dispatch-IsParsed command operands = elim (Bool-cases (beq command (codes "search"))) [
    | inl k ↦ rw k (words_or_failure operands)
    | inr k ↦ elim (Bool-cases (beq command (codes "list"))) [
      | inl l ↦ rw (k, l) (alone_or_failure operands)
      | inr l ↦ elim (Bool-cases (beq command (codes "show"))) [
        | inl m ↦ rw (k, l, m) (show-IsParsed operands)
        | inr m ↦ elim (Bool-cases (beq command (codes "validate"))) [
          | inl n ↦ rw (k, l, m, n) (validate-IsParsed operands)
          | inr n ↦ rw (k, l, m, n) (success-IsParsed _ h e)
        ]
      ]
    ]
  ]
    where
      words_or_failure :
          (words : List Bytes)
          → IsParsed (
              if is_empty words
              then failure options (codes "search requires a query")
              else search_for options words)
      words_or_failure [] = failure-IsParsed options _ refl h
      words_or_failure (word ∷ words) = success-IsParsed _ h e

      alone_or_failure :
          (words : List Bytes)
          → IsParsed (
              if is_empty words
              then success (record options { command = list })
              else failure options (codes "list does not accept positional arguments"))
      alone_or_failure [] = success-IsParsed _ h e
      alone_or_failure (word ∷ words) = failure-IsParsed options _ refl h

finish-IsParsed :
    (state : ParseState) (positional : List Bytes)
    → HasLimit state.options
    → IsParsed (finish state positional)
unfolding finish
finish-IsParsed state [] h = failure-IsParsed state.options _ refl h
finish-IsParsed state (command ∷ operands) h =
    elim (Bool-cases (state.options.raw && state.options.json)) [
      | inl e ↦ rw e (failure-IsParsed state.options _ refl h)
      | inr e ↦ elim (Bool-cases state.force_implicit_query) [
        | inl k ↦ simp (e, k) (success-IsParsed _ h e)
        | inr k ↦ simp (e, k) (dispatch-IsParsed state.options h e command operands)
      ]
    ]

conclude-IsParsed : {s : Scanned} → ScannedHolds s → IsParsed (conclude s)
unfolding conclude
conclude-IsParsed (is_finished {state} h) = finish-IsParsed state state.positional h
conclude-IsParsed (is_returned p) = p

-- Whatever the arguments are, the result is accepted exactly if its message is empty, its limit is
-- from 1 to 100, and where it is accepted for a command other than help and version, `--raw` and
-- `--json` do not stand together.
pub parse-IsParsed : (arguments : List Bytes) → IsParsed (parse_command_line arguments)
unfolding parse_command_line
parse-IsParsed arguments = conclude-IsParsed (scan-holds arguments start (omega arith))

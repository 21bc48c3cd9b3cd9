-- ===== src/Cli/Parse/Words.antt =====
-- Which arguments `parseCommandLine` of src/cli.cpp takes as words.
use howlinux.Base.{
  true, false, ◌&&◌, List, [], ◌∷◌, ◌++◌, append-nil, append_assoc, ◌≡◌, refl, ◌∙◌, ap, arith,
  Bytes, codes, beq, is_empty,
}
use howlinux.Cli.Parse.{parse_command_line, conclude, search_for}
use howlinux.Cli.Parse.Scan.{
  ParseState, start, Step, next, stop, take_next, take_value, Taken, taken, refused, step,
  set_value, Valued, finished, scan, option_step,
}

-- The loop goes on behind an argument without a value.
pub scan-next :
    (argument : Bytes) (arguments : List Bytes) (state state' : ParseState)
    → step state argument ≡ next state'
    → scan (argument ∷ arguments) state ≡ scan arguments state'
unfolding scan
scan-next argument [] state state' h = rw (h, scan)
scan-next argument (b ∷ arguments) state state' h = rw (h, scan)

step-word :
    (argument : Bytes) (state : ParseState)
    → state.parse_options ≡ false
    → step state argument ≡ next (record state { positional = state.positional ++ argument ∷ [] })
unfolding step
step-word argument state h = ground arith

-- All the arguments are positional.
scan-words :
    (arguments : List Bytes) (state : ParseState)
    → state.parse_options ≡ false
    → scan arguments state ≡ finished (record state { positional = state.positional ++ arguments })
scan-words [] state h = unfold scan in rw append-nil
scan-words (a ∷ arguments) state h =
    scan-next a arguments state _ (step-word a state h)
    ∙ scan-words arguments (record state { positional = state.positional ++ a ∷ [] }) h
    ∙ rw append_assoc

step-dashes :
    (state : ParseState)
    → state.parse_options ≡ true
    → step state (codes "--")
      ≡ next
          (record state { force_implicit_query = is_empty state.positional; parse_options = false })
unfolding step option_step beq
step-dashes state h = ground arith

-- Behind two dashes every argument is positional.
scan-dashes :
    (arguments : List Bytes) (state : ParseState)
    → state.parse_options ≡ true
    → scan (codes "--" ∷ arguments) state
      ≡ finished (record state {
        positional = state.positional ++ arguments;
        force_implicit_query = is_empty state.positional;
        parse_options = false;
      })
scan-dashes arguments state h =
    scan-next (codes "--") arguments state _ (step-dashes state h)
    ∙ scan-words arguments
        (record state { force_implicit_query = is_empty state.positional; parse_options = false })
        refl

module _ (argument : Bytes) (state : ParseState) (option : Valued) where
  scan-value :
      (arguments : List Bytes) (value : Bytes) (state' : ParseState)
      → step state argument ≡ take_value option value
      → set_value state option value ≡ taken state'
      → scan (argument ∷ arguments) state ≡ scan arguments state'
  unfolding scan
  scan-value [] value state' h k = rw (h, k, scan)
  scan-value (b ∷ arguments) value state' h k = rw (h, k, scan)

  scan-taken :
      (b : Bytes) (arguments : List Bytes) (state' : ParseState)
      → step state argument ≡ take_next option
      → set_value state option b ≡ taken state'
      → scan (argument ∷ b ∷ arguments) state ≡ scan arguments state'
  unfolding scan
  scan-taken b arguments state' h k = rw (h, k, scan)

-- Arguments behind those that the loop has read to their end.
abbrev Appends : List Bytes → List Bytes → Type 0
Appends before behind =
    (state state' : ParseState)
    → scan before state ≡ finished state'
    → scan (before ++ behind) state ≡ scan behind state'

append_one :
    (a : Bytes) (behind : List Bytes) (state state' : ParseState) (s : Step)
    → step state a ≡ s
    → scan (a ∷ []) state ≡ finished state'
    → scan (a ∷ behind) state ≡ scan behind state'
unfolding scan
append_one a behind state state' (next state1) e h =
    scan-next a behind state state1 e ∙ ground arith
append_one a behind state state' (stop result) e h = absurd (ground arith)
append_one a behind state state' (take_next option) e h = absurd (ground arith)
append_one a behind state state' (take_value option value) e h =
    by_value (set_value state option value) refl
  where
    by_value :
        (t : Taken)
        → set_value state option value ≡ t
        → scan (a ∷ behind) state ≡ scan behind state'
    by_value (taken state1) k = scan-value a state option behind value state1 e k ∙ ground arith
    by_value (refused result) k = absurd (ground arith)

append_two :
    (a b : Bytes) (before behind : List Bytes) (state state' : ParseState) (s : Step)
    → Appends (b ∷ before) behind
    → Appends before behind
    → step state a ≡ s
    → scan (a ∷ b ∷ before) state ≡ finished state'
    → scan (a ∷ b ∷ (before ++ behind)) state ≡ scan behind state'
unfolding scan
append_two a b before behind state state' (next state1) p q e h =
    scan-next a (b ∷ (before ++ behind)) state state1 e ∙ p state1 state' (ground arith)
append_two a b before behind state state' (stop result) p q e h = absurd (ground arith)
append_two a b before behind state state' (take_next option) p q e h =
    by_value (set_value state option b) refl
  where
    by_value :
        (t : Taken)
        → set_value state option b ≡ t
        → scan (a ∷ b ∷ (before ++ behind)) state ≡ scan behind state'
    by_value (taken state1) k =
        scan-taken a state option b (before ++ behind) state1 e k ∙ q state1 state' (ground arith)
    by_value (refused result) k = absurd (ground arith)
append_two a b before behind state state' (take_value option value) p q e h =
    by_value (set_value state option value) refl
  where
    by_value :
        (t : Taken)
        → set_value state option value ≡ t
        → scan (a ∷ b ∷ (before ++ behind)) state ≡ scan behind state'
    by_value (taken state1) k =
        scan-value a state option (b ∷ (before ++ behind)) value state1 e k
        ∙ p state1 state' (ground arith)
    by_value (refused result) k = absurd (ground arith)

scan-append : (before behind : List Bytes) → Appends before behind
scan-append [] behind state state' h = unfold scan in ground arith
scan-append (a ∷ []) behind state state' h = append_one a behind state state' (step state a) refl h
scan-append (a ∷ b ∷ before) behind state state' h =
    append_two a b before behind state state' (step state a) (scan-append (b ∷ before) behind)
      (scan-append before behind) refl h

-- If the arguments before two dashes are read to their end as options, with no word among them, and
-- do not ask for both `--raw` and `--json`, then whatever words follow the dashes are the query, and
-- the options are those read before.
pub parse-dashes :
    (before : List Bytes) (word : Bytes) (words : List Bytes) (state : ParseState)
    → scan before start ≡ finished state
    → state.parse_options ≡ true
    → state.positional ≡ []
    → (state.options.raw && state.options.json) ≡ false
    → parse_command_line (before ++ codes "--" ∷ word ∷ words)
      ≡ search_for state.options (word ∷ words)
unfolding parse_command_line
parse-dashes before word words state h open_ empty exclusive =
    ap conclude (
      scan-append before (codes "--" ∷ word ∷ words) start state h
      ∙ scan-dashes (word ∷ words) state open_)
    ∙ rw (empty, exclusive)

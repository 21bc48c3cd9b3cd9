-- ===== src/App/Validated.antt =====
-- What it says of the knowledge base where `howlinux validate` of src/app.cpp ends by `kSuccess`.
use howlinux.Base.{
  ℕ, refl, Bool, true, false, ◌||◌, List, [], ◌∷◌, ◌≡◌, subst, arith, Option, none, some,
  if◌then◌else◌, Bytes, codes, beq, contains, All,
}
use howlinux.Files.{join_path}
use howlinux.Cli.Options.{CliOptions, CliCommand}
use howlinux.Cli.Parse.{parse_command_line}
use howlinux.Concepts.Dictionary.{ConceptDictionary}
use howlinux.Concepts.Dictionary
use howlinux.Concepts.Load as ConceptLoad
use howlinux.Knowledge.{KnowledgeEntry}
use howlinux.Knowledge.Lookup.{is_some, find_by_id}
use howlinux.Knowledge.Load.{KnowledgeBase, has_issues}
use howlinux.Knowledge.Load as KnowledgeLoad
use howlinux.Knowledge.Load.Valid.{load-IsClean}
use howlinux.Knowledge.Lint.{lint_issues}
use howlinux.Knowledge.Lint.Run.{lint}
use howlinux.Knowledge.Lint.Clean.{RelatesBack, IsReciprocal}
use howlinux.Knowledge.Lint.Used.{AreUsed, lint-IsReciprocal}
use howlinux.Knowledge.Lint.Tidy.{AreTidy, lint-AreTidy}
use howlinux.Knowledge.Lint.Linked.{HasPage, lint-ArePages}
use howlinux.Search.Doubles.{Doubles}
use howlinux.Render.Write.{Writer, ◌<<◌}
use howlinux.Render.Json.{Printing}
use howlinux.App.{
  emitted_of, empty_warning, run_usable, run_command, run_available, run_loaded, run_parsed,
  run_options, run_application,
}
use howlinux.App.Outcome.{
  is_validate, success, no_confident_result, Surroundings, Outcome, Ending, returned, broken,
  out_of_fuel,
}
use howlinux.App.Commands.{run_unavailable, run_unusable, run_validate}
use howlinux.App.Ends.{root_of}

-- A related identifier of an entry: it is not the entry's own, and it finds an entry that relates back.
pub record IsLink (base : KnowledgeBase) (entry : KnowledgeEntry) (id : Bytes) : Type 0 where
  pub not_itself : beq id entry.id ≡ false
  pub other : KnowledgeEntry
  pub found : find_by_id base.entries base.id_lookup id ≡ some other
  pub back : contains other.related entry.id ≡ true

found-IsLink :
    (base : KnowledgeBase) (entry : KnowledgeEntry) (id : Bytes) (found : Option KnowledgeEntry)
    → find_by_id base.entries base.id_lookup id ≡ found
    → is_some found ≡ true
    → beq id entry.id ≡ false
    → RelatesBack entry.id found
    → IsLink base entry id
found-IsLink base entry id none same h not_itself back = absurd (ground (arith, h))
found-IsLink base entry id (some other) same h not_itself back = record {
  not_itself = not_itself;
  other = other;
  found = same;
  back = back;
}

module _ (base : KnowledgeBase) where
  abbrev IsFound : Bytes → Type 0
  IsFound id = is_some (find_by_id base.entries base.id_lookup id) ≡ true

  related-IsLink :
      (entry : KnowledgeEntry) (ids : List Bytes)
      → All IsFound ids
      → All
          (λ id.
            (beq id entry.id ≡ false)
            × RelatesBack entry.id (find_by_id base.entries base.id_lookup id))
          ids
      → All (IsLink base entry) ids
  related-IsLink entry [] h k = tt
  related-IsLink entry (id ∷ ids) (h, hs) ((not_itself, back), ks) =
      (found-IsLink base entry id _ refl h not_itself back, related-IsLink entry ids hs ks)

  entries-AreLinked :
      (entries : List KnowledgeEntry)
      → All (λ (entry : KnowledgeEntry). All IsFound entry.related) entries
      → All (IsReciprocal base.entries base.id_lookup) entries
      → All (λ (entry : KnowledgeEntry). All (IsLink base entry) entry.related) entries
  entries-AreLinked [] h k = tt
  entries-AreLinked (entry ∷ entries) (h, hs) (k, ks) =
      (related-IsLink entry entry.related h k, entries-AreLinked entries hs ks)

-- The concepts in the file of a knowledge root.
abbrev pub concepts_at : Surroundings → Bytes → ConceptDictionary
concepts_at surroundings path =
    ConceptLoad.load (surroundings.concept_file (join_path path (codes "concepts.yaml")))

pub record IsValidated (surroundings : Surroundings) (fuel : ℕ) (path : Bytes) : Type 0 where
  pub base : KnowledgeBase
  pub loaded : KnowledgeLoad.load surroundings.files fuel path ≡ some base
  pub nothing_skipped : base.report.skipped_entries ≡ 0
  pub no_diagnostics : Dictionary.has_issues (concepts_at surroundings path).report ≡ false
  pub linked : All (λ (entry : KnowledgeEntry). All (IsLink base entry) entry.related) base.entries
  pub tidy : AreTidy base.entries
  pub pages : All (HasPage surroundings.files base) base.entries
  pub used : AreUsed (concepts_at surroundings path) base.entries

-- The exit code is that of success where none of the three tests holds.
passed :
    (a b c : Bool)
    → ◌≡◌ {A = ℕ} (if a || b || c then no_confident_result else success) success
    → (a ≡ false) × ((b ≡ false) × (c ≡ false))
passed true b c h = absurd (omega (arith, h))
passed false true c h = absurd (omega (arith, h))
passed false false true h = absurd (omega (arith, h))
passed false false false h = (refl, (refl, refl))

module _ (surroundings : Surroundings) (fuel : ℕ) (path : Bytes) where
  abbrev Succeeds : Ending → Type 0
  Succeeds (returned outcome) = outcome.exit_code ≡ 0 → IsValidated surroundings fuel path
  Succeeds broken = Unit
  Succeeds out_of_fuel = Unit

  if-Succeeds :
      (test : Bool) (a b : Ending) → Succeeds a → Succeeds b → Succeeds (if test then a else b)
  if-Succeeds true a b h k = h
  if-Succeeds false a b h k = k

  validate-Succeeds :
      (options : CliOptions) (base : KnowledgeBase)
      → KnowledgeLoad.load surroundings.files fuel path ≡ some base
      → Succeeds (run_validate surroundings options base (concepts_at surroundings path))
  unfolding run_validate
  validate-Succeeds options base loaded zero_code =
      let concepts = concepts_at surroundings path in
      let (clean_report, rest) =
        passed (has_issues base.report) (Dictionary.has_issues concepts.report)
          (lint_issues (lint surroundings.files concepts base)) zero_code in
      let (no_concept_issues, no_lint_issues) = rest in
      let clean = load-IsClean surroundings.files fuel path base loaded clean_report in
      let (reciprocal, used) = lint-IsReciprocal surroundings.files concepts base no_lint_issues in
      record {
        base = base;
        loaded = loaded;
        nothing_skipped = clean.nothing_skipped;
        no_diagnostics = no_concept_issues;
        linked = entries-AreLinked base base.entries clean.related reciprocal;
        tidy = lint-AreTidy surroundings.files concepts fuel path base loaded no_lint_issues;
        pages = lint-ArePages surroundings.files concepts base no_lint_issues;
        used = used;
      }

  module _ (N : Doubles) (P : Printing N) where
    usable-Succeeds :
        (options : CliOptions) (base : KnowledgeBase) (errors : Writer) (command : CliCommand)
        → is_validate command ≡ true
        → KnowledgeLoad.load surroundings.files fuel path ≡ some base
        → Succeeds (
            run_usable N P surroundings options base (concepts_at surroundings path) errors command)
    unfolding run_usable
    usable-Succeeds options base errors CliCommand.validate h loaded =
        validate-Succeeds options base loaded
    usable-Succeeds options base errors CliCommand.list h loaded = absurd (ground (arith, h))
    usable-Succeeds options base errors CliCommand.show h loaded = absurd (ground (arith, h))
    usable-Succeeds options base errors CliCommand.search h loaded = absurd (ground (arith, h))
    usable-Succeeds options base errors CliCommand.help h loaded = absurd (ground (arith, h))
    usable-Succeeds options base errors CliCommand.version h loaded = absurd (ground (arith, h))

    loaded-Succeeds :
        (options : CliOptions) (loading : Option KnowledgeBase)
        → is_validate options.command ≡ true
        → KnowledgeLoad.load surroundings.files fuel path ≡ loading
        → Succeeds (run_loaded N P surroundings options path loading)
    unfolding run_loaded run_available run_command run_unusable run_unavailable
    loaded-Succeeds options none h loaded = tt
    loaded-Succeeds options (some base) h loaded =
        if-Succeeds base.report.root_available _ _
          (if-Succeeds (concepts_at surroundings path).report.usable _ _
            (usable-Succeeds options base
              (emitted_of N P options base (concepts_at surroundings path)
                << empty_warning N P path base)
              options.command h loaded)
            (λ k. absurd (omega (arith, k))))
          (λ k. absurd (omega (arith, k)))

    parsed-Succeeds :
        (options : CliOptions) (command : CliCommand)
        → is_validate command ≡ true
        → is_validate options.command ≡ true
        → Succeeds (run_parsed N P surroundings fuel options path command)
    unfolding run_parsed
    parsed-Succeeds options CliCommand.validate h k = loaded-Succeeds options _ k refl
    parsed-Succeeds options CliCommand.list h k = absurd (ground (arith, h))
    parsed-Succeeds options CliCommand.show h k = absurd (ground (arith, h))
    parsed-Succeeds options CliCommand.search h k = absurd (ground (arith, h))
    parsed-Succeeds options CliCommand.help h k = absurd (ground (arith, h))
    parsed-Succeeds options CliCommand.version h k = absurd (ground (arith, h))

    then-Succeeds :
        (test : Bool) (a b : Ending) → test ≡ true → Succeeds a → Succeeds (if test then a else b)
    then-Succeeds true a b same h = h
    then-Succeeds false a b same h = absurd (ground (arith, same))

-- Where `validate` ends by `kSuccess`: the knowledge base is loaded from the resolved path, no entry is
-- skipped, the concepts have no diagnostics, every related identifier of an entry is not its own and
-- finds an entry that relates back, no alias is empty or stands twice in the knowledge base and no keyword
-- or related identifier does in its entry, every code fence in the text of an entry is closed and every
-- link outside of fences has a good target, and every canonical name in the dictionary of the concepts is
-- that of a concept which the dictionary detects in the identifier, the title, the command, an alias or a
-- keyword of an entry.
pub run_application-IsValidated :
    (N : Doubles) (P : Printing N) (surroundings : Surroundings) (fuel : ℕ) (arguments : List Bytes)
    → (executable_path current_directory : Bytes) (outcome : Outcome)
    → (parse_command_line arguments).ok ≡ true
    → is_validate (parse_command_line arguments).options.command ≡ true
    → run_application N P surroundings fuel arguments executable_path current_directory
      ≡ returned outcome
    → outcome.exit_code ≡ 0
    → IsValidated surroundings fuel
        (root_of surroundings arguments executable_path current_directory)
unfolding run_application run_options
run_application-IsValidated N P surroundings fuel arguments executable_path current_directory
      outcome ok validates same =
    let options = (parse_command_line arguments).options in
    let path = root_of surroundings arguments executable_path current_directory in
    subst (Succeeds surroundings fuel path) same (
      then-Succeeds surroundings fuel path N P (parse_command_line arguments).ok _ _ ok
        (parsed-Succeeds surroundings fuel path N P options options.command validates validates))

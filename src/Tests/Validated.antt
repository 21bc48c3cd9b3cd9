-- ===== src/Tests/Validated.antt =====
-- `validate` of src/app.cpp at a root with two entries that relate to one another.
use howlinux.Base.{
  true, false, List, [], ◌∷◌, ◌++◌, ◌≡◌, refl, ap, ◌∙◌, none, some, Bytes, codes, Bool,
  if◌then◌else◌, beq, blt, contains,
}
use howlinux.Base.Sort.{sort_by}
use howlinux.Yaml.{
  answer, null, text, scalar, sequence, end, item, mapping, done, field, document, Loaded,
}
use howlinux.Files.{
  regular, directory, has_type, missing, unreadable_directory, listed, cannot_open, contents,
  FileSystem, join_path, parent_path, filename,
}
use howlinux.Query.Lexer.Scan.{lexical_tokens}
use howlinux.Query.Tokens.{tokenize, join_tokens, is_stopword}
use howlinux.Concepts.Dictionary.{ConceptDictionary}
use howlinux.Knowledge.{KnowledgeEntry}
use howlinux.Concepts.Load as ConceptLoad
use howlinux.Knowledge.Lookup.{index_of_id}
use howlinux.Knowledge.Scan.{scan, visit_child, visit}
use howlinux.Knowledge.Entry.{load_entry}
use howlinux.Knowledge.Load.{KnowledgeBase, load}
use howlinux.Knowledge.Lint.{KnowledgeLintReport, lint_issues}
use howlinux.Knowledge.Lint.Run.{lint}
use howlinux.Knowledge.Lint.Tidy.{AreTidy, lint-AreTidy}
use howlinux.Cli.Options.{CliOptions}
use howlinux.Cli.Parse.{parse_command_line}
use howlinux.App.{run_options, run_parsed, run_loaded, run_application}
use howlinux.App.Outcome.{is_validate, Surroundings, Outcome, returned}
use howlinux.App.Commands.{validation}
use howlinux.App.Ends.{root_of}
use howlinux.App.Validated.{concepts_at, IsValidated, run_application-IsValidated}
use howlinux.Tests.Load.{lookup, string}
use howlinux.Tests.App.{no_file}
use howlinux.Tests.Search.{numbers}
use howlinux.Tests.Render.{printing}

-- The metadata of an entry with a related identifier.
abbrev metadata : Bytes → Bytes → Bytes → Loaded
metadata id related alias = document (
    mapping (
      string (codes "id") id (
        string (codes "title") id (
          string (codes "type") (codes "command") (
            field (scalar (text (codes "related"))) (sequence (item (scalar (text related)) end)) (
              field (scalar (text (codes "aliases"))) (sequence (item (scalar (text alias)) end))
                done))))))

-- A code fence, and a link with a suffix.
abbrev page : Bytes
page =
    codes "```sh"
    ++ 10 ∷ codes "a]("
    ++ 10 ∷ codes "````"
    ++ 10 ∷ codes "[b](../b/content.md#top) too"

abbrev files : FileSystem
files = record {
  status = lookup (missing []) ((codes "k", has_type directory) ∷ []);
  symlink_status = lookup (missing []) (
      (codes "k/c", has_type directory)
      ∷ (codes "k/c/a", has_type directory)
      ∷ (codes "k/c/b", has_type directory)
      ∷ (codes "k/c/a/meta.yaml", has_type regular)
      ∷ (codes "k/c/b/meta.yaml", has_type regular)
      ∷ (codes "k/c/a/content.md", has_type regular)
      ∷ (codes "k/c/b/content.md", has_type regular)
      ∷ []);
  list_directory = lookup (unreadable_directory []) (
      (codes "k", listed (codes "c" ∷ []))
      ∷ (codes "k/c", listed (codes "b" ∷ codes "a" ∷ []))
      ∷ (codes "k/c/a", listed [])
      ∷ (codes "k/c/b", listed [])
      ∷ []);
  read = lookup cannot_open (
      (codes "k/c/a/meta.yaml", contents (codes "a"))
      ∷ (codes "k/c/b/meta.yaml", contents (codes "b"))
      ∷ (codes "k/c/a/content.md", contents page)
      ∷ (codes "k/c/b/content.md", contents (codes "y"))
      ∷ []);
  exists = λ path. answer true;
  weakly_canonical = λ path. answer path;
  lexically_normal = λ path. path;
  lexically_relative = λ path root.
      lookup []
        ((codes "k/c/a", codes "c" ∷ codes "a" ∷ [])
          ∷ (codes "k/c/b", codes "c" ∷ codes "b" ∷ [])
          ∷ [])
        path;
  parse_yaml = lookup (document null) (
      (codes "a", metadata (codes "a") (codes "b") (codes "find file"))
      ∷ (codes "b", metadata (codes "b") (codes "a") (codes "Copy file"))
      ∷ []);
}

abbrev surroundings : Surroundings
surroundings = record {
  files = files;
  variable = none;
  version = codes "1";
  data_directory = codes "share";
  no_color = none;
  term = some (codes "xterm");
  is_terminal = false;
  concept_file = no_file;
}

abbrev arguments : List Bytes
arguments = codes "validate" ∷ codes "k" ∷ []

abbrev entry_of : Bytes → Bytes → Bytes → Bytes → Bytes → KnowledgeEntry
entry_of id related alias source_directory content = record {
  id = id;
  title = id;
  type = codes "command";
  command = [];
  aliases = alias ∷ [];
  keywords = [];
  related = related ∷ [];
  intents = [];
  difficulty = [];
  platforms = [];
  tags = [];
  examples = [];
  category = codes "c";
  source_directory = source_directory;
  content = content;
}

abbrev base : KnowledgeBase
base = record {
  root = codes "k";
  entries =
      entry_of (codes "a") (codes "b") (codes "find file") (codes "k/c/a") page
      ∷ entry_of (codes "b") (codes "a") (codes "Copy file") (codes "k/c/b") (codes "y")
      ∷ [];
  id_lookup = (codes "a", 0) ∷ (codes "b", 1) ∷ [];
  report = record {
    root_available = true;
    discovered_entries = 2;
    loaded_entries = 2;
    skipped_entries = 0;
    diagnostics = [];
  };
}

loaded : load files 4 (codes "k") ≡ some base
unfolding load beq scan sort_by visit_child join_path visit blt load_entry contains filename
    index_of_id
loaded = refl

abbrev concepts : ConceptDictionary
concepts = concepts_at surroundings (codes "k")

abbrev report : KnowledgeLintReport
report = lint files concepts base

silent : lint_issues report ≡ false
unfolding lint sort_by contains beq ConceptLoad.load join_tokens tokenize lexical_tokens is_stopword
    join_path parent_path
silent = refl

abbrev options : CliOptions
options = (parse_command_line arguments).options

abbrev outcome_at : Bool → Outcome
outcome_at issues = record {
  exit_code = if issues then 1 else 0;
  output = validation options base.report concepts.report report [];
  errors = [];
}

abbrev outcome : Outcome
outcome = outcome_at false

accepted : (parse_command_line arguments).ok ≡ true
unfolding parse_command_line
accepted = refl

validates : is_validate (parse_command_line arguments).options.command ≡ true
unfolding parse_command_line
validates = refl

ran : run_application numbers printing surroundings 4 arguments (codes "/b") [] ≡ returned outcome
unfolding run_application run_options run_parsed run_loaded ConceptLoad.load parse_command_line
    join_path load
ran =
    ap (run_loaded numbers printing surroundings options (codes "k")) loaded
    ∙ ap (λ issues. returned (outcome_at issues)) silent

run_application-IsValidated_example :
    IsValidated surroundings 4 (root_of surroundings arguments (codes "/b") [])
run_application-IsValidated_example =
    run_application-IsValidated numbers printing surroundings 4 arguments (codes "/b") [] outcome
      accepted validates ran refl

lint-AreTidy_example : AreTidy base.entries
lint-AreTidy_example = lint-AreTidy files concepts 4 (codes "k") base loaded silent

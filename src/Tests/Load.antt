-- ===== src/Tests/Load.antt =====
-- The theorems on `KnowledgeBase::load` of src/knowledge.cpp at a root with one entry.
use howlinux.Base.{
  true, false, List, [], ◌∷◌, ◌≡◌, refl, arith, some, Bytes, codes, beq, blt, contains, All,
  if◌then◌else◌,
}
use howlinux.Base.Sort.{sort_by}
use howlinux.Yaml.{answer, text, scalar, mapping, Fields, done, field, document}
use howlinux.Files.{
  regular, directory, symlink, has_type, missing, unreadable_directory, listed, cannot_open,
  contents, FileSystem, join_path, filename,
}
use howlinux.Knowledge.{KnowledgeEntry}
use howlinux.Knowledge.Scan.{scan, visit_child, visit}
use howlinux.Knowledge.Load.{KnowledgeBase, load}
use howlinux.Knowledge.Load.Ends.{load-ends}
use howlinux.Knowledge.Load.Valid.{IsValid, IsClean, load-IsValid, load-IsClean}
use howlinux.Concepts.Dictionary.{ConceptDictionary, empty_report}
use howlinux.Concepts.Detect.{detect}
use howlinux.Query.Tokens.{tokenize, is_stopword}
use howlinux.Query.Lexer.Scan.{lexical_tokens}
use howlinux.Knowledge.Lint.{lint_issues}
use howlinux.Knowledge.Lint.Run.{lint}
use howlinux.Knowledge.Lint.Clean.{IsReciprocal}
use howlinux.Knowledge.Lint.Used.{AreUsed, lint-IsReciprocal}
use howlinux.Knowledge.Entry.{load_entry}
use howlinux.Knowledge.Sound.{IsSound, load_entry-IsSound}

abbrev pub lookup : {A : Type 0} → A → List (Bytes × A) → Bytes → A
lookup default [] path = default
lookup default ((key, value) ∷ values) path =
    if beq key path then value else lookup default values path

abbrev pub meta : Bytes
meta = codes "k/c/e/meta.yaml"

abbrev pub content : Bytes
content = codes "k/c/e/content.md"

abbrev pub string : Bytes → Bytes → Fields → Fields
string key value rest = field (scalar (text key)) (scalar (text value)) rest

abbrev pub files : FileSystem
files = record {
  status = lookup (missing []) ((codes "k", has_type directory) ∷ []);
  symlink_status = lookup (missing []) (
      (codes "k/c", has_type directory)
      ∷ (codes "k/c/e", has_type directory)
      ∷ (meta, has_type regular)
      ∷ (content, has_type regular)
      ∷ []);
  list_directory = lookup (unreadable_directory []) (
      (codes "k", listed (codes "c" ∷ []))
      ∷ (codes "k/c", listed (codes "e" ∷ []))
      ∷ (codes "k/c/e", listed (codes "meta.yaml" ∷ codes "content.md" ∷ []))
      ∷ []);
  read = lookup cannot_open ((meta, contents (codes "m")) ∷ (content, contents (codes "x")) ∷ []);
  exists = λ path. answer true;
  weakly_canonical = λ path. answer path;
  lexically_normal = λ path. path;
  lexically_relative =
      λ path root. lookup [] ((codes "k/c/e", codes "c" ∷ codes "e" ∷ []) ∷ []) path;
  parse_yaml = λ value. document (
      mapping (
        string (codes "id") (codes "e")
          (string (codes "title") (codes "t") (string (codes "type") (codes "command") done))));
}

abbrev pub entry : KnowledgeEntry
entry = record {
  id = codes "e";
  title = codes "t";
  type = codes "command";
  command = [];
  aliases = [];
  keywords = [];
  related = [];
  intents = [];
  difficulty = [];
  platforms = [];
  tags = [];
  examples = [];
  category = codes "c";
  source_directory = codes "k/c/e";
  content = codes "x";
}

abbrev pub base : KnowledgeBase
base = record {
  root = codes "k";
  entries = entry ∷ [];
  id_lookup = (codes "e", 0) ∷ [];
  report = record {
    root_available = true;
    discovered_entries = 1;
    loaded_entries = 1;
    skipped_entries = 0;
    diagnostics = [];
  };
}

base-loaded : load files 3 (codes "k") ≡ some base
unfolding load beq scan sort_by visit_child join_path visit blt load_entry contains filename
base-loaded = refl

-- A category, and a symbolic link to a directory which has such a link in it, and so on without an end.
abbrev looping : FileSystem
looping = record files {
  status = λ path. has_type directory;
  symlink_status = lookup (has_type symlink) ((codes "k/c", has_type directory) ∷ []);
  list_directory =
      lookup (listed (codes "l" ∷ []))
        ((codes "k", listed (codes "c" ∷ codes "l" ∷ [])) ∷ (codes "k/c", listed []) ∷ []);
}

load-ends_example : (base' : KnowledgeBase) × (load looping 2 (codes "k") ≡ some base')
unfolding visit beq sort_by visit_child join_path blt
load-ends_example = load-ends looping 2 2 (codes "k") (tt, tt) (omega arith)

load-IsValid_example : IsValid base
load-IsValid_example = load-IsValid files 3 (codes "k") base base-loaded

load-IsClean_example : IsClean base
load-IsClean_example = load-IsClean files 3 (codes "k") base base-loaded refl

load_entry-IsSound_example :
    IsSound (codes "k/c/e") (codes "c") (load_entry files (codes "k/c/e") (codes "c"))
load_entry-IsSound_example = load_entry-IsSound (codes "k/c/e") (codes "c") files

-- The dictionary of the concept "t", which the title of the entry names.
abbrev titled : ConceptDictionary
titled = record {
  phrase_to_canonical = (codes "t", codes "t") ∷ [];
  definitions = record { phrase = codes "t"; canonical = codes "t"; tokens = codes "t" ∷ [] } ∷ [];
  report = empty_report;
}

silent : lint_issues (lint files titled base) ≡ false
unfolding lint sort_by detect tokenize lexical_tokens is_stopword contains beq blt
silent = refl

lint-IsReciprocal_example :
    All (IsReciprocal base.entries base.id_lookup) base.entries × AreUsed titled base.entries
lint-IsReciprocal_example = lint-IsReciprocal files titled base silent

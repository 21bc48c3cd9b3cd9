-- ===== src/Tests/Concepts.antt =====
-- The theorems on src/concepts.cpp at a small dictionary.
use howlinux.Base.{contains, true, List, [], ◌∷◌, ◌≡◌, refl, arith, Bytes, beq, blt, codes, All}
use howlinux.Yaml.{text, Node, scalar, sequence, mapping, end, item, done, field, answer, document}
use howlinux.Concepts.Detect.{PhraseDefinition}
use howlinux.Concepts.Detect as Definitions
use howlinux.Concepts.Detect.Laws.{HasTokens, Scans, detect-Scans}
use howlinux.Concepts.Detect.Longest.{Reports, Follow}
use howlinux.Base.Sort.{sort_by}
use howlinux.Query.Lexer.Scan.{lexical_tokens}
use howlinux.Query.Tokens.{tokenize, join_tokens, is_stopword}
use howlinux.Concepts.Dictionary.{detect, normalize_phrase, find}
use howlinux.Diagnostics.{has_errors}
use howlinux.Concepts.Groups.{ParsedConceptGroup, error_of}
use howlinux.Concepts.Cycles.{detect_cycles}
use howlinux.Concepts.Cycles.Exact.{Decided, detect_cycles-Decided}
use howlinux.Concepts.Load.{ConceptFile, load, built_diagnostics, phrase_state}
use howlinux.Concepts.Load.Acyclic.{has_errors-built_diagnostics}
use howlinux.Concepts.Load.Report.{IsReported, load-IsReported}
use howlinux.Concepts.Load.Canonical.Dictionary.{IsSound, load-IsSound, load-detect}

abbrev word : Bytes → Node
word s = scalar (text s)

-- concepts: {symbolic link: [Symlink, soft link], permission: [permissions]}
abbrev file : ConceptFile
file = record {
  path = codes "concepts.yaml";
  exists = answer true;
  is_regular_file = answer true;
  loaded = document (
      mapping (
        field (word (codes "concepts"))
          (mapping (
            field (word (codes "symbolic link"))
              (sequence (item (word (codes "Symlink")) (item (word (codes "soft link")) end)))
              (field (word (codes "permission")) (sequence (item (word (codes "permissions")) end))
                done)))
          done));
}

abbrev tokens : List Bytes
tokens = codes "soft" ∷ codes "link" ∷ codes "permissions" ∷ []

usable : (load file).report.usable ≡ true
unfolding load beq blt sort_by normalize_phrase find tokenize join_tokens lexical_tokens is_stopword
usable = refl

load-detect_example :
    All (Reports (load file).definitions tokens) (detect (load file) tokens)
    × Follow 0 (detect (load file) tokens)
load-detect_example = load-detect file tokens

load-IsSound_example : IsSound (load file)
load-IsSound_example = load-IsSound file

load-IsReported_example : IsReported (load file)
load-IsReported_example = load-IsReported file

abbrev definitions : List PhraseDefinition
definitions =
    record {
      phrase = codes "soft link";
      canonical = codes "symbolic link";
      tokens = codes "soft" ∷ codes "link" ∷ [];
    }
    ∷ []

definitions-HasTokens : HasTokens definitions
definitions-HasTokens = (omega arith, tt)

detect-Scans_example : Scans definitions 0 tokens (Definitions.detect definitions tokens)
detect-Scans_example = detect-Scans definitions tokens definitions-HasTokens

abbrev group : Bytes → List Bytes → ParsedConceptGroup
group canonical aliases = record {
  canonical = canonical;
  source_name = canonical;
  aliases = aliases;
}

-- Two names that are aliases of one another.
abbrev circle : List ParsedConceptGroup
circle = group (codes "a1") (codes "b1" ∷ []) ∷ group (codes "b1") (codes "a1" ∷ []) ∷ []

has_errors-built_diagnostics_example :
    has_errors (built_diagnostics (codes "concepts.yaml") [] circle)
    ≡ has_errors (phrase_state (codes "concepts.yaml") [] circle).diagnostics
has_errors-built_diagnostics_example =
    has_errors-built_diagnostics (codes "concepts.yaml") [] circle

detect_cycles-Decided_example : Decided circle (codes "p") (detect_cycles circle (codes "p"))
detect_cycles-Decided_example = detect_cycles-Decided circle (codes "p")

-- What the error says.
circle-message :
    detect_cycles circle (codes "p")
    ≡ error_of (codes "p") (codes "b1") (codes "circular concept definition: a1 -> b1 -> a1") ∷ []
unfolding detect_cycles beq sort_by blt contains
circle-message = refl

-- ===== src/Knowledge/Lint.antt =====
-- `KnowledgeLintReport` of include/knowledge.hpp.
pub mod Links
pub mod Markdown
pub mod Aliases
pub mod Run
pub mod Clean
pub mod Distinct
pub mod Tidy
pub mod Linked
pub mod Used
use howlinux.Base.{ℕ, Bool, false, not, List, [], is_empty}
use howlinux.Diagnostics.{Diagnostic}

pub record KnowledgeLintReport : Type 0 where
  pub performed : Bool
  pub entries_checked : ℕ
  pub aliases_checked : ℕ
  pub keywords_checked : ℕ
  pub concepts_checked : ℕ
  pub diagnostics : List Diagnostic

-- A report that is not filled in.
abbrev pub empty_lint : KnowledgeLintReport
empty_lint = record {
  performed = false;
  entries_checked = 0;
  aliases_checked = 0;
  keywords_checked = 0;
  concepts_checked = 0;
  diagnostics = [];
}

-- `KnowledgeLintReport::hasIssues`
abbrev pub lint_issues : KnowledgeLintReport → Bool
lint_issues report = not (is_empty report.diagnostics)

-- ===== src/Knowledge/Lint/Linked.antt =====
-- The texts of the entries for which `KnowledgeBase::lint` of src/knowledge.cpp reports nothing.
use howlinux.Base.{false, none, ◌≡◌, All, All-map, map}
use howlinux.Concepts.Dictionary.{ConceptDictionary}
use howlinux.Files.{FileSystem}
use howlinux.Knowledge.{KnowledgeEntry}
use howlinux.Knowledge.Metadata.{content_path}
use howlinux.Knowledge.Load.{KnowledgeBase}
use howlinux.Knowledge.Lint.{lint_issues}
use howlinux.Knowledge.Lint.Run.{lint}
use howlinux.Knowledge.Lint.Clean.{lint-AreQuiet}
use howlinux.Knowledge.Lint.Markdown.Pages.{IsPage, lint_markdown-IsPage}
use howlinux.Markdown.Blocks.{split_lines, strip_return}

-- The lines of the content of an entry are a page.
abbrev pub HasPage : FileSystem → KnowledgeBase → KnowledgeEntry → Type 0
HasPage files base entry =
    IsPage files (content_path entry.source_directory) base.root none
      (map strip_return (split_lines entry.content))

pub lint-ArePages :
    (files : FileSystem) (concepts : ConceptDictionary) (base : KnowledgeBase)
    → lint_issues (lint files concepts base) ≡ false
    → All (HasPage files base) base.entries
lint-ArePages files concepts base h =
    All-map (λ entry quiet. lint_markdown-IsPage files base.root entry quiet.quiet_text)
      base.entries (lint-AreQuiet files concepts base h)

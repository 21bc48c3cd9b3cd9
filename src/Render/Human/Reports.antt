-- ===== src/Render/Human/Reports.antt =====
-- The entry, the list, the validation report and the text of no match of src/render.cpp do not steer a terminal.
use howlinux.Base.{
  ◌+◌, Bool, true, false, ◌&&◌, ◌||◌, not, ◌++◌, ◌≡◌, refl, ◌∙◌, Option, none, some, if◌then◌else◌,
  Bytes, codes, Bool-cases, inl, inr, length, is_empty, ◌==◌,
}
use howlinux.Diagnostics.{Severity, warning, error, Diagnostic}
use howlinux.Concepts.Dictionary.{ConceptLoadReport}
use howlinux.Knowledge.{KnowledgeEntry}
use howlinux.Knowledge.Lookup.{find_by_id}
use howlinux.Knowledge.Reader.{back_is}
use howlinux.Knowledge.Load.{KnowledgeLoadReport, KnowledgeBase}
use howlinux.Knowledge.Lint.{KnowledgeLintReport}
use howlinux.Markdown.Blocks.{render_markdown}
use howlinux.Markdown.Blocks.Shown.{render_markdown-AreShown}
use howlinux.Markdown.Inline.Shown.{AreShown}
use howlinux.Render.Write.{
  ◌<<◌, put, put_each, put_safe, related_label, put_related, sorted_entries, severity_name,
  validation_status,
}
use howlinux.Render.Human.{
  newline, yes_no, human_diagnostic, without_title, human_entry, no_match_text, list_line,
  list_text, validation_text,
}
use howlinux.Render.Human.Shown.{
  is_shown, IsSafe, AreShown-IsSafe, AreShown-of, safe, printed, if-IsSafe, when-IsSafe,
  each-IsSafe,
}

related-IsSafe : (id : Bytes) (entry : Option KnowledgeEntry) → IsSafe (related_label id entry)
related-IsSafe id none = safe id
related-IsSafe id (some entry) =
    if-IsSafe (is_empty entry.title) (put_safe id) _ (safe id)
      (λ rest. safe entry.title _ ∙ safe entry.id _)

put_related-IsSafe : (knowledge : KnowledgeBase) (id : Bytes) → IsSafe (put_related knowledge id)
unfolding put_related
put_related-IsSafe knowledge id =
    related-IsSafe id (find_by_id knowledge.entries knowledge.id_lookup id)

severity-IsSafe : (severity : Severity) → IsSafe (put (severity_name severity))
severity-IsSafe warning rest = refl
severity-IsSafe error rest = refl

diagnostic-IsSafe :
    (scope : Bytes)
    → AreShown scope
    → (diagnostic : Diagnostic) → IsSafe (human_diagnostic scope diagnostic)
unfolding human_diagnostic
diagnostic-IsSafe scope h diagnostic rest =
    severity-IsSafe diagnostic.severity _
    ∙ AreShown-IsSafe scope h _
    ∙ when-IsSafe (not (is_empty diagnostic.path)) (put (codes " ") << put_safe diagnostic.path)
        (λ r. safe diagnostic.path r) _
    ∙ when-IsSafe (not (is_empty diagnostic.entry_id))
        (put (codes " (ID: ") << put_safe diagnostic.entry_id << put (codes ")"))
        (λ r. safe diagnostic.entry_id _) _
    ∙ safe diagnostic.message _

-- `Renderer::entry`, neither raw nor in color.
pub entry-IsSafe :
    (value : KnowledgeEntry) (knowledge : KnowledgeBase)
    → IsSafe (human_entry false value knowledge false)
unfolding human_entry
entry-IsSafe value knowledge rest =
    safe value.title _
    ∙ safe value.id _
    ∙ AreShown-IsSafe (render_markdown false (without_title value.title value.content))
        (render_markdown-AreShown (without_title value.title value.content)) _
    ∙ when-IsSafe (is_empty value.content || false && not (back_is 10 value.content)) newline
        (λ r. refl) _
    ∙ when-IsSafe (not (is_empty value.related)) _
        (λ r.
          each-IsSafe (λ id. put (codes "  - ") << put_related knowledge id << newline)
            (λ id q. put_related-IsSafe knowledge id _) value.related r)
        rest

list_line-IsSafe : (entry : KnowledgeEntry) → IsSafe (list_line entry)
list_line-IsSafe entry rest =
    safe entry.title _
    ∙ safe entry.id _
    ∙ when-IsSafe (not (is_empty entry.category)) _ (λ r. safe entry.category _) _

pub list-IsSafe : (knowledge : KnowledgeBase) → IsSafe (list_text knowledge)
unfolding list_text
list-IsSafe knowledge rest =
    let entries = sorted_entries knowledge in
    printed (length entries) _
    ∙ if-IsSafe (is_empty entries) _ (put_each list_line entries) (λ r. refl)
        (each-IsSafe list_line list_line-IsSafe entries) rest

pub flag-IsSafe : (value : Bool) → IsSafe (yes_no value)
flag-IsSafe true rest = refl
flag-IsSafe false rest = refl

status-IsSafe :
    (knowledge_report : KnowledgeLoadReport) (concept_report : ConceptLoadReport)
    → (lint_report : KnowledgeLintReport)
    → IsSafe (put (validation_status knowledge_report concept_report lint_report))
unfolding validation_status
status-IsSafe knowledge_report concept_report lint_report rest =
    elim (Bool-cases knowledge_report.root_available) [
      | inl e ↦ rw e (issues _)
      | inr e ↦ rw e refl
    ]
  where
    issues :
        (test : Bool)
        → is_shown ((if test then codes "invalid" else codes "valid") ++ rest) ≡ is_shown rest
    issues true = refl
    issues false = refl

pub validation-IsSafe :
    (knowledge_report : KnowledgeLoadReport) (concept_report : ConceptLoadReport)
    → (lint_report : KnowledgeLintReport)
    → IsSafe (validation_text knowledge_report concept_report lint_report)
unfolding validation_text
validation-IsSafe k c l rest =
    status-IsSafe k c l _
    ∙ flag-IsSafe k.root_available _
    ∙ printed k.discovered_entries _
    ∙ printed k.loaded_entries _
    ∙ printed k.skipped_entries _
    ∙ flag-IsSafe c.file_present _
    ∙ flag-IsSafe c.usable _
    ∙ printed c.concepts_loaded _
    ∙ flag-IsSafe l.performed _
    ∙ printed l.entries_checked _
    ∙ printed l.aliases_checked _
    ∙ printed l.keywords_checked _
    ∙ printed l.concepts_checked _
    ∙ when-IsSafe (k.root_available && k.loaded_entries == 0) _ (λ r. refl) _
    ∙ printed (length k.diagnostics + length c.diagnostics + length l.diagnostics) _
    ∙ each-IsSafe (human_diagnostic (codes "knowledge"))
        (diagnostic-IsSafe (codes "knowledge") (AreShown-of (codes "knowledge") refl)) k.diagnostics
        _
    ∙ each-IsSafe (human_diagnostic (codes "concepts"))
        (diagnostic-IsSafe (codes "concepts") (AreShown-of (codes "concepts") refl)) c.diagnostics _
    ∙ each-IsSafe (human_diagnostic (codes "lint"))
        (diagnostic-IsSafe (codes "lint") (AreShown-of (codes "lint") refl)) l.diagnostics rest

pub no_match-IsSafe : (query : Bytes) → IsSafe (no_match_text query)
unfolding no_match_text
no_match-IsSafe query rest = safe query _

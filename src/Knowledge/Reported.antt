-- ===== src/Knowledge/Reported.antt =====
-- The helpers of `KnowledgeBase::loadEntry` of src/knowledge.cpp add only warnings, and they refuse
-- nothing without a warning.
use howlinux.Base.{
  ℕ, ◌+◌, Bool, true, false, ◌&&◌, ◌||◌, List, [], ◌∷◌, ◌++◌, ◌≡◌, refl, ◌∙◌, arith, none, Bytes,
  is_empty, &&-eq-true, sym, contains, Bool-cases, inl, inr, codes,
}
use howlinux.Diagnostics.{Diagnostic, has_errors}
use howlinux.Yaml.{
  raw_text, Node, undefined, null, scalar, sequence, mapping, Nodes, end, item, Fields, done, field,
}
use howlinux.Files.{
  regular, directory, symlink, other, not_found, none_type, Status, has_type, missing, status_error,
  Contents, cannot_open, bad_read, contents,
}
use howlinux.Knowledge.Reader.{
  warn, has_non_whitespace, validate_status, read_contents, find_field, required_string,
  optional_string, read_items, optional_string_list,
}
use howlinux.Knowledge.Metadata.{metadata_path, candidate_id, read_keys, read_fields}

-- Diagnostics that are warnings, of which there is one where the outcome is false.
pub record IsReported (outcome : Bool) (added : List Diagnostic) : Type 0 where
  pub all_warnings : has_errors added ≡ false
  pub has_reason : outcome ≡ false → is_empty added ≡ false

pub nothing_added : IsReported true []
unfolding has_errors
nothing_added = record { all_warnings = refl; has_reason = λ h. ground (arith, h) }

pub one_warning :
    {path entry_id message : Bytes} (outcome : Bool)
    → IsReported outcome (warn path entry_id message ∷ [])
unfolding has_errors
one_warning outcome = record { all_warnings = refl; has_reason = λ h. refl }

pub has_errors-append :
    (xs ys : List Diagnostic) → has_errors (xs ++ ys) ≡ (has_errors xs || has_errors ys)
unfolding has_errors
has_errors-append [] ys = refl
has_errors-append (x ∷ xs) ys = ground (arith, has_errors-append xs ys)

pub is_empty-append :
    {A : Type 0} (xs ys : List A) → is_empty (xs ++ ys) ≡ (is_empty xs && is_empty ys)
is_empty-append [] ys = refl
is_empty-append (x ∷ xs) ys = refl

pub split-append :
    (xs ys : List Diagnostic)
    → is_empty (xs ++ ys) ≡ true
    → (is_empty xs ≡ true) × (is_empty ys ≡ true)
split-append xs ys h = &&-eq-true (is_empty xs) (is_empty ys) (sym (is_empty-append xs ys) ∙ h)

pub append-IsReported :
    {a b : Bool} {xs ys : List Diagnostic}
    → IsReported a xs
    → IsReported b ys
    → IsReported (a && b) (xs ++ ys)
append-IsReported {a} {b} {xs} {ys} p q = record {
  all_warnings = ground (arith, has_errors-append xs ys, p.all_warnings, q.all_warnings);
  has_reason = λ h. is_empty-append xs ys ∙ ground (arith, h, p.has_reason, q.has_reason);
}

-- A warning in front.
warned :
    {p i message : Bytes} {v : Bool} {xs : List Diagnostic}
    → IsReported v xs
    → IsReported false (warn p i message ∷ xs)
unfolding has_errors
warned r = record { all_warnings = r.all_warnings; has_reason = λ h. refl }

pub validate_status-IsReported :
    (status : Status) (path entry_id description : Bytes)
    → let (added, valid) = validate_status status path entry_id description in
      IsReported valid added
unfolding validate_status
validate_status-IsReported (missing message) path entry_id description = one_warning false
validate_status-IsReported (status_error message) path entry_id description = one_warning false
validate_status-IsReported (has_type regular) path entry_id description = nothing_added
validate_status-IsReported (has_type directory) path entry_id description = one_warning false
validate_status-IsReported (has_type symlink) path entry_id description = one_warning false
validate_status-IsReported (has_type other) path entry_id description = one_warning false
validate_status-IsReported (has_type not_found) path entry_id description = one_warning false
validate_status-IsReported (has_type none_type) path entry_id description = one_warning false

module _ (path entry_id name : Bytes) where
  required_string-IsReported :
      (node : Node)
      → let read = required_string path entry_id name node in IsReported read.valid read.added
  unfolding required_string
  required_string-IsReported undefined = one_warning false
  required_string-IsReported null = one_warning false
  required_string-IsReported (scalar value) =
      elim (Bool-cases (has_non_whitespace (raw_text value))) [
        | inl e ↦ rw e nothing_added
        | inr e ↦ rw e (one_warning false)
      ]
  required_string-IsReported (sequence nodes) = one_warning false
  required_string-IsReported (mapping fields) = one_warning false

  pub required_string-has_non_whitespace :
      (node : Node)
      → let read = required_string path entry_id name node in
        read.valid ≡ true → has_non_whitespace read.value ≡ true
  unfolding required_string
  required_string-has_non_whitespace undefined h = ground (arith, h)
  required_string-has_non_whitespace null h = ground (arith, h)
  required_string-has_non_whitespace (scalar value) h =
      elim (Bool-cases (has_non_whitespace (raw_text value))) [
        | inl e ↦ rw e e
        | inr e ↦ absurd (ground (arith, e, h))
      ]
  required_string-has_non_whitespace (sequence nodes) h = ground (arith, h)
  required_string-has_non_whitespace (mapping fields) h = ground (arith, h)

  optional_string-IsReported :
      (node : Node)
      → let read = optional_string path entry_id name node in IsReported read.valid read.added
  unfolding optional_string
  optional_string-IsReported undefined = nothing_added
  optional_string-IsReported null = one_warning false
  optional_string-IsReported (scalar value) = nothing_added
  optional_string-IsReported (sequence nodes) = one_warning false
  optional_string-IsReported (mapping fields) = one_warning false

  read_items-IsReported :
      (index : ℕ) (nodes : Nodes)
      → let read = read_items path entry_id name index nodes in IsReported read.valid read.added
  unfolding read_items
  read_items-IsReported index end = nothing_added
  read_items-IsReported index (item (scalar value) nodes) =
      let r = read_items-IsReported (index + 1) nodes in
      record { all_warnings = r.all_warnings; has_reason = r.has_reason }
  read_items-IsReported index (item undefined nodes) =
      warned (read_items-IsReported (index + 1) nodes)
  read_items-IsReported index (item null nodes) = warned (read_items-IsReported (index + 1) nodes)
  read_items-IsReported index (item (sequence inner) nodes) =
      warned (read_items-IsReported (index + 1) nodes)
  read_items-IsReported index (item (mapping fields) nodes) =
      warned (read_items-IsReported (index + 1) nodes)

  optional_string_list-IsReported :
      (node : Node)
      → let read = optional_string_list path entry_id name node in IsReported read.valid read.added
  unfolding optional_string_list
  optional_string_list-IsReported undefined = nothing_added
  optional_string_list-IsReported null = one_warning false
  optional_string_list-IsReported (scalar value) = one_warning false
  optional_string_list-IsReported (sequence nodes) = read_items-IsReported 0 nodes
  optional_string_list-IsReported (mapping fields) = one_warning false

pub read_contents-IsReported :
    (read : Contents) (path entry_id description : Bytes)
    → let (added, value) = read_contents read path entry_id description in
      (has_errors added ≡ false) × (value ≡ none → is_empty added ≡ false)
unfolding read_contents has_errors
read_contents-IsReported cannot_open path entry_id description = (refl, λ h. refl)
read_contents-IsReported bad_read path entry_id description = (refl, λ h. refl)
read_contents-IsReported (contents value) path entry_id description =
    (refl, λ h. absurd (ground (arith, h)))

pub read_keys-IsReported :
    (entry_directory : Bytes) (metadata : Fields) (seen : List Bytes)
    → let keys = read_keys entry_directory metadata seen in IsReported keys.valid keys.added
unfolding read_keys
read_keys-IsReported entry_directory done seen = nothing_added
read_keys-IsReported entry_directory (field (scalar key) value fields) seen =
    elim (Bool-cases (contains seen (raw_text key))) [
      | inl e ↦ rw e (warned (read_keys-IsReported entry_directory fields seen))
      | inr e ↦ rw e (read_keys-IsReported entry_directory fields (raw_text key ∷ seen))
    ]
read_keys-IsReported entry_directory (field undefined value fields) seen =
    warned (read_keys-IsReported entry_directory fields seen)
read_keys-IsReported entry_directory (field null value fields) seen =
    warned (read_keys-IsReported entry_directory fields seen)
read_keys-IsReported entry_directory (field (sequence nodes) value fields) seen =
    warned (read_keys-IsReported entry_directory fields seen)
read_keys-IsReported entry_directory (field (mapping inner) value fields) seen =
    warned (read_keys-IsReported entry_directory fields seen)

pub read_fields-IsReported :
    (entry_directory category : Bytes) (metadata : Fields)
    → let fields = read_fields entry_directory category metadata in
      IsReported fields.valid fields.added
unfolding read_fields
read_fields-IsReported entry_directory category metadata =
    let path = metadata_path entry_directory in
    let own = candidate_id entry_directory in
    let fields = read_fields entry_directory category metadata in
    let required = λ (name : Bytes).
      required_string-IsReported path fields.diagnostic_id name (find_field metadata name) in
    let optional = λ (name : Bytes).
      optional_string-IsReported path fields.diagnostic_id name (find_field metadata name) in
    let strings = λ (name : Bytes).
      optional_string_list-IsReported path fields.diagnostic_id name (find_field metadata name) in
    append-IsReported
      (required_string-IsReported path own (codes "id") (find_field metadata (codes "id")))
      (append-IsReported (required (codes "title")) (
        append-IsReported (required (codes "type")) (
          append-IsReported (optional (codes "command")) (
            append-IsReported (optional (codes "difficulty")) (
              append-IsReported (strings (codes "aliases")) (
                append-IsReported (strings (codes "keywords")) (
                  append-IsReported (strings (codes "related")) (
                    append-IsReported (strings (codes "intent")) (
                      append-IsReported (strings (codes "platforms")) (
                        append-IsReported (strings (codes "tags"))
                          (strings (codes "examples"))))))))))))

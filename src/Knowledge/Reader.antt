-- ===== src/Knowledge/Reader.antt =====
-- The helpers of `KnowledgeBase::loadEntry` in src/knowledge.cpp. Each returns the diagnostics that it
-- adds.
use howlinux.Base.{
  ℕ, ◌+◌, Bool, true, false, ◌&&◌, ◌||◌, not, List, [], ◌∷◌, ◌++◌, Option, none, some, leb, ◌==◌,
  if◌then◌else◌, Bytes, codes, beq, any, all, is_empty,
}
use howlinux.Base.Numbers.{to_string}
use howlinux.Diagnostics.{warning, Diagnostic}
use howlinux.Yaml.{
  raw_text, Node, undefined, null, scalar, sequence, Nodes, end, item, Fields, done, field,
}
use howlinux.Files.{
  regular, not_found, Status, has_type, missing, status_error, Contents, cannot_open, bad_read,
  contents,
}

abbrev pub metadata_filename : Bytes
metadata_filename = codes "meta.yaml"

abbrev pub content_filename : Bytes
content_filename = codes "content.md"

abbrev pub metadata_description : Bytes
metadata_description = codes "metadata file 'meta.yaml'"

abbrev pub content_description : Bytes
content_description = codes "content file 'content.md'"

-- A diagnostic that `addDiagnostic` adds as a warning.
abbrev pub warn : Bytes → Bytes → Bytes → Diagnostic
warn path entry_id message = record {
  severity = warning;
  path = path;
  entry_id = entry_id;
  message = message;
}

-- `std::isspace` in the C locale
unfoldable pub is_space : ℕ → Bool
is_space character = leb 9 character && leb character 13 || character == b' '

-- `hasNonWhitespace`
unfoldable pub has_non_whitespace : Bytes → Bool
unfolding is_space
has_non_whitespace value = any (λ character. not (is_space character)) value

abbrev pub back_is : ℕ → Bytes → Bool
back_is c [] = false
back_is c (a ∷ []) = a == c
back_is c (a ∷ b ∷ value) = back_is c (b ∷ value)

abbrev pub front_is : ℕ → Bytes → Bool
front_is c [] = false
front_is c (a ∷ value) = a == c

-- `isPortableEntryId`
unfoldable pub is_portable_entry_id : Bytes → Bool
is_portable_entry_id value =
    not (is_empty value || front_is b'-' value || back_is b'-' value)
    && all
        (λ character.
          leb b'a' character && leb character b'z'
          || leb b'0' character && leb character b'9'
          || character == b'-')
        value

-- `validateRegularFile`, by the answer of `symlink_status`: the diagnostics, and what it returns.
unfoldable pub validate_status : Status → Bytes → Bytes → Bytes → List Diagnostic × Bool
validate_status (missing message) path entry_id description =
    (warn path entry_id (codes "missing required " ++ description) ∷ [], false)
validate_status (status_error message) path entry_id description = (
  warn path entry_id (codes "cannot inspect required " ++ (description ++ (codes ": " ++ message)))
      ∷ [],
  false,
)
validate_status (has_type not_found) path entry_id description =
    (warn path entry_id (codes "missing required " ++ description) ∷ [], false)
validate_status (has_type regular) path entry_id description = ([], true)
validate_status (has_type type) path entry_id description = (
  warn path entry_id
        (description ++ codes " must be a regular file (symbolic links are not accepted)")
      ∷ [],
  false,
)

-- `readFileByteExact`
unfoldable pub read_contents : Contents → Bytes → Bytes → Bytes → List Diagnostic × Option Bytes
read_contents cannot_open path entry_id description =
    (warn path entry_id (codes "cannot open " ++ (description ++ codes " for reading")) ∷ [], none)
read_contents bad_read path entry_id description =
    (warn path entry_id (codes "failed while reading " ++ description) ∷ [], none)
read_contents (contents value) path entry_id description = ([], some value)

-- `metadata[field]`
unfoldable pub find_field : Fields → Bytes → Node
find_field done name = undefined
find_field (field (scalar key) value fields) name =
    if beq (raw_text key) name then value else find_field fields name
find_field (field _ value fields) name = find_field fields name

-- What reading a field gives: the diagnostics, whether it is valid, and its value.
pub record Field (A : Type 0) : Type 0 where
  pub added : List Diagnostic
  pub valid : Bool
  pub value : A

abbrev pub field_text : Bytes → Bytes → Bytes
field_text name behind = codes "metadata field '" ++ (name ++ (codes "'" ++ behind))

module _ (path entry_id name : Bytes) where
  abbrev invalid : {A : Type 0} → A → Bytes → Field A
  invalid value message = record {
    added = warn path entry_id message ∷ [];
    valid = false;
    value = value;
  }

  abbrev accepted : {A : Type 0} → A → Field A
  accepted value = record { added = []; valid = true; value = value }

  -- `readRequiredString`, by the node at the field.
  unfoldable pub required_string : Node → Field Bytes
  unfolding has_non_whitespace
  required_string undefined =
      invalid [] (codes "missing required metadata field '" ++ (name ++ codes "'"))
  required_string null =
      invalid [] (codes "missing required metadata field '" ++ (name ++ codes "'"))
  required_string (scalar value) =
      if has_non_whitespace (raw_text value)
      then accepted (raw_text value)
      else invalid (raw_text value)
          (codes "required metadata field '" ++ (name ++ codes "' must not be empty"))
  required_string _ = invalid [] (field_text name (codes " must be a string"))

  -- `readOptionalString`
  unfoldable pub optional_string : Node → Field Bytes
  optional_string undefined = accepted []
  optional_string (scalar value) = accepted (raw_text value)
  optional_string _ = invalid [] (field_text name (codes " must be a string when present"))

  -- The loop over the items, from this index on.
  unfoldable pub read_items : ℕ → Nodes → Field (List Bytes)
  unfolding to_string
  read_items index end = accepted []
  read_items index (item (scalar value) nodes) =
      let rest = read_items (index + 1) nodes in
      record { added = rest.added; valid = rest.valid; value = raw_text value ∷ rest.value }
  read_items index (item _ nodes) =
      let rest = read_items (index + 1) nodes in
      record {
        added =
            warn path entry_id
              (field_text name (codes " item " ++ (to_string index ++ codes " must be a string")))
            ∷ rest.added;
        valid = false;
        value = rest.value;
      }

  -- `readOptionalStringList`; the output keeps its value, the empty list, where an item is refused.
  unfoldable pub optional_string_list : Node → Field (List Bytes)
  unfolding read_items
  optional_string_list undefined = accepted []
  optional_string_list (sequence nodes) =
      let parsed = read_items 0 nodes in
      record parsed { value = if parsed.valid then parsed.value else [] }
  optional_string_list _ = invalid [] (field_text name (codes " must be a list of strings"))

-- `isKnownMetadataField`
abbrev pub known_fields : List Bytes
known_fields =
    codes "id"
    ∷ codes "title"
    ∷ codes "type"
    ∷ codes "command"
    ∷ codes "aliases"
    ∷ codes "keywords"
    ∷ codes "related"
    ∷ codes "intent"
    ∷ codes "difficulty"
    ∷ codes "platforms"
    ∷ codes "tags"
    ∷ codes "examples"
    ∷ []

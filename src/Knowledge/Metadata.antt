-- ===== src/Knowledge/Metadata.antt =====
-- The metadata of an entry in `KnowledgeBase::loadEntry` of src/knowledge.cpp: its keys and its fields.
use howlinux.Base.{
  Bool, true, false, ◌&&◌, List, [], ◌∷◌, ◌++◌, if◌then◌else◌, Bytes, codes, contains,
}
use howlinux.Diagnostics.{Diagnostic}
use howlinux.Yaml.{raw_text, scalar, Fields, done, field}
use howlinux.Files.{join_path, filename}
use howlinux.Knowledge.{KnowledgeEntry}
use howlinux.Knowledge.Reader.{
  metadata_filename, content_filename, warn, has_non_whitespace, find_field, required_string,
  optional_string, optional_string_list, known_fields,
}

abbrev pub metadata_path : Bytes → Bytes
metadata_path entry_directory = join_path entry_directory metadata_filename

abbrev pub content_path : Bytes → Bytes
content_path entry_directory = join_path entry_directory content_filename

-- `candidateId`
abbrev pub candidate_id : Bytes → Bytes
candidate_id entry_directory = filename entry_directory

-- The loop over the keys: its diagnostics, `metadata_keys_valid`, and `unknown_fields`.
pub record Keys : Type 0 where
  pub added : List Diagnostic
  pub valid : Bool
  pub unknown : List Bytes

unfoldable pub read_keys : Bytes → Fields → List Bytes → Keys
read_keys entry_directory done seen = record { added = []; valid = true; unknown = [] }
read_keys entry_directory (field (scalar key) value fields) seen =
    let name = raw_text key in
    let duplicate = read_keys entry_directory fields seen in
    let new = read_keys entry_directory fields (name ∷ seen) in
    if contains seen name
    then record {
      added =
          warn (metadata_path entry_directory) (candidate_id entry_directory)
            (codes "duplicate metadata field '" ++ (name ++ codes "'"))
          ∷ duplicate.added;
      valid = false;
      unknown = duplicate.unknown;
    }
    else record new {
      unknown = if contains known_fields name then new.unknown else name ∷ new.unknown;
    }
read_keys entry_directory (field _ value fields) seen =
    let rest = read_keys entry_directory fields seen in
    record {
      added =
          warn (metadata_path entry_directory) (candidate_id entry_directory)
            (codes "metadata field names must be strings")
          ∷ rest.added;
      valid = false;
      unknown = rest.unknown;
    }

-- The fields: the diagnostics, `fields_valid`, `diagnostic_id`, and the entry without its content.
pub record EntryFields : Type 0 where
  pub added : List Diagnostic
  pub valid : Bool
  pub diagnostic_id : Bytes
  pub entry : KnowledgeEntry

unfoldable pub read_fields : Bytes → Bytes → Fields → EntryFields
unfolding required_string optional_string optional_string_list find_field
read_fields entry_directory category metadata =
    let path = metadata_path entry_directory in
    let node = find_field metadata in
    let provisional_id = candidate_id entry_directory in
    let id = required_string path provisional_id (codes "id") (node (codes "id")) in
    let diagnostic_id = if has_non_whitespace id.value then id.value else provisional_id in
    let required = λ (name : Bytes). required_string path diagnostic_id name (node name) in
    let optional = λ (name : Bytes). optional_string path diagnostic_id name (node name) in
    let strings = λ (name : Bytes). optional_string_list path diagnostic_id name (node name) in
    let title = required (codes "title") in
    let type = required (codes "type") in
    let command = optional (codes "command") in
    let difficulty = optional (codes "difficulty") in
    let aliases = strings (codes "aliases") in
    let keywords = strings (codes "keywords") in
    let related = strings (codes "related") in
    let intents = strings (codes "intent") in
    let platforms = strings (codes "platforms") in
    let tags = strings (codes "tags") in
    let examples = strings (codes "examples") in
    record {
      added =
          id.added
          ++ (title.added
              ++ (type.added
                  ++ (command.added
                      ++ (difficulty.added
                          ++ (aliases.added
                              ++ (keywords.added
                                  ++ (related.added
                                      ++ (intents.added
                                          ++ (platforms.added
                                              ++ (tags.added ++ examples.added))))))))));
      valid =
          id.valid
          && (title.valid
              && (type.valid
                  && (command.valid
                      && (difficulty.valid
                          && (aliases.valid
                              && (keywords.valid
                                  && (related.valid
                                      && (intents.valid
                                          && (platforms.valid
                                              && (tags.valid && examples.valid))))))))));
      diagnostic_id = diagnostic_id;
      entry = record {
        id = id.value;
        title = title.value;
        type = type.value;
        command = command.value;
        aliases = aliases.value;
        keywords = keywords.value;
        related = related.value;
        intents = intents.value;
        difficulty = difficulty.value;
        platforms = platforms.value;
        tags = tags.value;
        examples = examples.value;
        category = category;
        source_directory = entry_directory;
        content = [];
      };
    }

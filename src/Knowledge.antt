-- ===== src/Knowledge.antt =====
-- The entries of include/knowledge.hpp.
pub mod Lookup
pub mod Reader
pub mod Metadata
pub mod Reported
pub mod Entry
pub mod Sound
pub mod Ids
pub mod Scan
pub mod Load
pub mod Lint
use howlinux.Base.{ℕ, zero, suc, List, [], ◌∷◌, Option, none, some, Bytes}

-- `KnowledgeEntry`; a path is its text.
pub record KnowledgeEntry : Type 0 where
  pub id : Bytes
  pub title : Bytes
  pub type : Bytes
  pub command : Bytes
  pub aliases : List Bytes
  pub keywords : List Bytes
  pub related : List Bytes
  pub intents : List Bytes
  pub difficulty : Bytes
  pub platforms : List Bytes
  pub tags : List Bytes
  pub examples : List Bytes
  pub category : Bytes
  pub source_directory : Bytes
  pub content : Bytes

-- `entries().at(index)`: nothing, where it throws.
unfoldable pub entry_at : List KnowledgeEntry → ℕ → Option KnowledgeEntry
entry_at [] index = none
entry_at (entry ∷ entries) zero = some entry
entry_at (entry ∷ entries) (suc index) = entry_at entries index

-- ===== src/Cli/Options.antt =====
-- The types of include/cli.hpp. A path is its text.
use howlinux.Base.{ℕ, Bool, false, [], Bytes}

-- The limits of `SearchConfig` in include/config.hpp that the command line uses.
abbrev pub default_limit : ℕ
default_limit = 5

abbrev pub maximum_limit : ℕ
maximum_limit = 100

-- `CliCommand`
pub data CliCommand : Type 0 where
  search list show validate help version : CliCommand

-- `CliOptions`
pub record CliOptions : Type 0 where
  pub command : CliCommand
  pub knowledge_path : Bytes
  pub knowledge_path_explicit : Bool
  pub limit : ℕ
  pub explain : Bool
  pub json : Bool
  pub raw : Bool
  pub query : Bytes
  pub entry_id : Bytes

-- `CliParseResult`
pub record CliParseResult : Type 0 where
  pub ok : Bool
  pub options : CliOptions
  pub error : Bytes

abbrev pub default_options : CliOptions
default_options = record {
  command = search;
  knowledge_path = [];
  knowledge_path_explicit = false;
  limit = default_limit;
  explain = false;
  json = false;
  raw = false;
  query = [];
  entry_id = [];
}

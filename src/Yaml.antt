-- ===== src/Yaml.antt =====
-- YAML documents, as the program reads them: what `YAML::LoadFile` hands over, through `IsMap`,
-- `IsSequence`, `IsScalar` and `as<std::string>`. The parser itself is yaml-cpp's.
use howlinux.Base.{Bytes}

-- A scalar: its text, or its text with the `what()` of the exception that `as<std::string>` throws.
pub data Text : Type 0 where
  text : Bytes → Text
  unreadable : Bytes → Bytes → Text

-- `Scalar()` of a node that is one.
abbrev pub raw_text : Text → Bytes
raw_text (text value) = value
raw_text (unreadable raw what) = raw

mutual
  pub data Node : Type 0 where
    undefined null : Node
    scalar : Text → Node
    sequence : Nodes → Node
    mapping : Fields → Node

  pub data Nodes : Type 0 where
    end : Nodes
    item : Node → Nodes → Nodes

  pub data Fields : Type 0 where
    done : Fields
    field : Node → Node → Fields → Fields

-- What a call that takes a `std::error_code` answers, or the error's message.
pub data Answer (A : Type 0) : Type 0 where
  answer : A → Answer A
  failed : Bytes → Answer A

-- How `YAML::LoadFile` ends: by a `YAML::Exception`, by another exception, or with a document.
pub data Loaded : Type 0 where
  yaml_error : Bytes → Loaded
  other_error : Bytes → Loaded
  document : Node → Loaded

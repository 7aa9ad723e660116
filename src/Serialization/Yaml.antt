-- ===== src/Serialization/Yaml.antt =====
-- What lib/serialization/YamlConfigSerializer.cpp asks of yaml-cpp.
use bit_bridge.Prelude.{ℕ, ◌<◌, ◌^◌, ◌≡◌, Bool, List, Bytes, Option, some, lookup}

-- Nodes, and how they are read: `node[key]`, `none` where it is no defined node; the elements of a
-- sequence; and `as<T>()`, `none` where it throws a `YAML::Exception`. How they are written: the emitter
-- is given scalars, maps and sequences. The laws are the library's own round trip: a node that was
-- written is read as what was written, a number where it fits the bits of the type.
pub record Yaml : Type 1 where
  pub Node : Type 0
  pub child : Node → Bytes → Option Node
  pub elements : Node → List Node
  pub as_text : Node → Option Bytes
  pub as_flag : Node → Option Bool
  pub as_number : ℕ → Node → Option ℕ
  pub of_text : Bytes → Node
  pub of_flag : Bool → Node
  pub of_number : ℕ → Node
  pub of_map : List (Bytes × Node) → Node
  pub of_sequence : List Node → Node
  -- What is written into a file, and `YAML::LoadFile`, which may refuse what stands there.
  pub Document : Type 0
  pub emit : Node → Document
  pub parse : Document → Option Node
  pub child_map :
      (entries : List (Bytes × Node)) (key : Bytes)
      → child (of_map entries) key ≡ lookup entries key
  pub elements_sequence : (nodes : List Node) → elements (of_sequence nodes) ≡ nodes
  pub text_text : (s : Bytes) → as_text (of_text s) ≡ some s
  pub flag_flag : (b : Bool) → as_flag (of_flag b) ≡ some b
  pub number_number : (bits n : ℕ) → n < 2 ^ bits → as_number bits (of_number n) ≡ some n
  pub parse_emit : (n : Node) → parse (emit n) ≡ some n

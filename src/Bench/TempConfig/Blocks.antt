-- ===== src/Bench/TempConfig/Blocks.antt =====
-- YAML's block style, as far as bench/main.cpp writes it: a mapping of scalars, of mappings of scalars and of
-- sequences of these.
use bit_bridge.Prelude.{ℕ, Bool, true, false, List, [], ◌∷◌, ◌++◌, map, Bytes, codes, format_nat}
use bit_bridge.Serialization.Yaml.{Yaml}

pub data Scalar : Type 0 where
  plain quoted : Bytes → Scalar
  number : ℕ → Scalar
  flag : Bool → Scalar

abbrev pub Fields : Type 0
Fields = List (Bytes × Scalar)

pub data Block : Type 0 where
  scalar : Scalar → Block
  fields : Fields → Block
  items : List Fields → Block

abbrev pub scalar_text : Scalar → Bytes
scalar_text (plain s) = s
scalar_text (quoted s) = codes "\"" ++ (s ++ codes "\"")
scalar_text (number n) = format_nat n
scalar_text (flag true) = codes "true"
scalar_text (flag false) = codes "false"

-- Lines, each behind an indentation, in front of later ones.
abbrev pub field_lines : Bytes → Fields → List Bytes → List Bytes
field_lines indent [] rest = rest
field_lines indent ((key, s) ∷ fs) rest =
    (indent ++ (key ++ (codes ": " ++ scalar_text s))) ∷ field_lines indent fs rest

-- An element of a sequence has a dash in front of its first line.
abbrev pub item_lines : Fields → List Bytes → List Bytes
item_lines [] rest = rest
item_lines (f ∷ fs) rest = field_lines (codes "  - ") (f ∷ []) (field_lines (codes "    ") fs rest)

abbrev pub items_lines : List Fields → List Bytes → List Bytes
items_lines [] rest = rest
items_lines (i ∷ is) rest = item_lines i (items_lines is rest)

abbrev pub block_lines : List (Bytes × Block) → List Bytes
block_lines [] = []
block_lines ((key, scalar s) ∷ bs) = (key ++ (codes ": " ++ scalar_text s)) ∷ block_lines bs
block_lines ((key, fields fs) ∷ bs) =
    (key ++ codes ":") ∷ field_lines (codes "  ") fs (block_lines bs)
block_lines ((key, items is) ∷ bs) = (key ++ codes ":") ∷ items_lines is (block_lines bs)

-- What such a document means.
module _ (yaml : Yaml) where
  open yaml use {Node, of_text, of_flag, of_number, of_map, of_sequence}

  abbrev pub scalar_node : Scalar → Node
  scalar_node (plain s) = of_text s
  scalar_node (quoted s) = of_text s
  scalar_node (number n) = of_number n
  scalar_node (flag b) = of_flag b

  abbrev pub fields_node : Fields → Node
  fields_node fs = of_map (map (λ f. (f.0, scalar_node f.1)) fs)

  abbrev pub block_node : Block → Node
  block_node (scalar s) = scalar_node s
  block_node (fields fs) = fields_node fs
  block_node (items is) = of_sequence (map fields_node is)

  abbrev pub document_node : List (Bytes × Block) → Node
  document_node bs = of_map (map (λ b. (b.0, block_node b.1)) bs)

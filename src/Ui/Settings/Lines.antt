-- ===== src/Ui/Settings/Lines.antt =====
-- TOML, as far as ui/AppSettings.cpp writes it: comments, the headers of tables, and keys with texts, flags
-- and numbers.
use bit_bridge.Prelude.{
  ℕ, Bool, true, false, if◌then◌else◌, List, [], ◌∷◌, ◌++◌, Bytes, codes, format_nat, same_text,
  Option, none, some, pos, ◌≡◌,
}
use bit_bridge.Ui.Toml.{Toml}

pub data Value : Type 0 where
  text : Bytes → Value
  flag : Bool → Value
  integer : ℕ → Value

-- A header has the keys on the way to its table.
pub data Line : Type 0 where
  comment : Bytes → Line
  blank : Line
  header : List Bytes → Line
  entry : Bytes → Value → Line

-- In front of what is printed later.
abbrev pub value_text : Value → Bytes → Bytes
value_text (text s) rest = codes "\"" ++ (s ++ (codes "\"" ++ rest))
value_text (flag b) rest = (if b then codes "true" else codes "false") ++ rest
value_text (integer n) rest = format_nat n ++ rest

abbrev pub dotted_path : List Bytes → Bytes
dotted_path [] = []
dotted_path (key ∷ []) = key
dotted_path (key ∷ next ∷ path) = key ++ (codes "." ++ dotted_path (next ∷ path))

-- What is printed for a line, in front of what is printed later.
abbrev pub lines_text : List Line → Bytes
lines_text [] = []
lines_text (comment s ∷ ls) = codes "# " ++ (s ++ (codes "\n" ++ lines_text ls))
lines_text (blank ∷ ls) = codes "\n" ++ lines_text ls
lines_text (header path ∷ ls) = codes "[" ++ (dotted_path path ++ (codes "]\n" ++ lines_text ls))
lines_text (entry key v ∷ ls) = key ++ (codes " = " ++ value_text v (codes "\n" ++ lines_text ls))

abbrev pub same_path : List Bytes → List Bytes → Bool
same_path [] [] = true
same_path [] (l ∷ q) = false
same_path (k ∷ p) [] = false
same_path (k ∷ p) (l ∷ q) = if same_text k l then same_path p q else false

-- The value of a key in the table of a path, from a line in the table `here` on.
abbrev pub value_in : List Bytes → Bytes → List Bytes → List Line → Option Value
value_in path key here [] = none
value_in path key here (comment s ∷ ls) = value_in path key here ls
value_in path key here (blank ∷ ls) = value_in path key here ls
value_in path key here (header there ∷ ls) = value_in path key there ls
value_in path key here (entry k v ∷ ls) =
    let rest = value_in path key here ls in
    if same_path here path then (if same_text k key then some v else rest) else rest

-- The table itself, and those with a header.
abbrev pub has_table : List Bytes → List Line → Bool
has_table path [] = same_path [] path
has_table path (comment s ∷ ls) = has_table path ls
has_table path (blank ∷ ls) = has_table path ls
has_table path (header there ∷ ls) = if same_path there path then true else has_table path ls
has_table path (entry k v ∷ ls) = has_table path ls

module _ (toml : Toml) where
  open toml use {Table, parse_file, table_at, text_at, flag_at, integer_at}

  abbrev pub table_along : Table → List Bytes → Option Table
  table_along t [] = some t
  table_along t (key ∷ path) = elim (table_at t key) [ none ↦ none | some u ↦ table_along u path ]

  -- A table is read as the lines say of the table of a path.
  pub record IsRead (u : Table) (path : List Bytes) (ls : List Line) : Type 0 where
    pub text_read :
        (key s : Bytes) → value_in path key [] ls ≡ some (text s) → text_at u key ≡ some s
    pub flag_read :
        (key : Bytes) (b : Bool) → value_in path key [] ls ≡ some (flag b) → flag_at u key ≡ some b
    pub integer_read :
        (key : Bytes) (n : ℕ)
        → value_in path key [] ls ≡ some (integer n)
        → integer_at u key ≡ some (pos n)

  -- The text of the lines is read as what they mean, a table at each header with the values below it.
  pub record Reads (ls : List Line) : Type 0 where
    pub root : Table
    pub parsed : parse_file (lines_text ls) ≡ some root
    pub table : List Bytes → Table
    pub along :
        (path : List Bytes) → has_table path ls ≡ true → table_along root path ≡ some (table path)
    pub read : (path : List Bytes) → has_table path ls ≡ true → IsRead (table path) path ls

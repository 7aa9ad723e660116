-- ===== src/Ui/Toml.antt =====
-- What ui/AppSettings.cpp asks of toml++.
use bit_bridge.Prelude.{Bool, Bytes, Option, ℤ}

-- `toml::parse_file` of what stands in a file, `none` where it throws a `toml::parse_error`; and how a
-- table is read: `table[key].as_table()`, and `table[key].value<T>()`, which is `none` where the key is
-- not there or its value is none of the type.
pub record Toml : Type 1 where
  pub Table : Type 0
  pub parse_file : Bytes → Option Table
  pub table_at : Table → Bytes → Option Table
  pub text_at : Table → Bytes → Option Bytes
  pub flag_at : Table → Bytes → Option Bool
  pub integer_at : Table → Bytes → Option ℤ

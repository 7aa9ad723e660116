-- ===== src/Tests/Ui.antt =====
-- ui/ with small libraries in place of toml++ and yaml-cpp, and a window in which a service is entered.
use bit_bridge.Prelude.{
  if◌then◌else◌, ◌⊎◌, ℤ, pos, negsuc, ◌≡◌, refl, true, false, if◌then◌else◌, [], ◌∷◌, Bytes, codes,
  same_text, Option, none, some,
}
use bit_bridge.Ui.Toml.{Toml}
use bit_bridge.Ui.Settings.{
  AppSettings, default_settings, settings_text, load_from_file, read_settings, read_limits,
  read_health_check, read_defaults, read_root,
}
use bit_bridge.Ui.Settings.Ranges.{default_settings-IsSettingsInRange}
use bit_bridge.Ui.Settings.Reading.{Loaded, load_from_file_lem}

pub data Table : Type 0 where
  nothing : Table
  integer : Bytes → ℤ → Table → Table
  table : Bytes → Table → Table → Table

abbrev pub integer_at : Table → Bytes → Option ℤ
integer_at nothing key = none
integer_at (integer k z t) key = if same_text k key then some z else integer_at t key
integer_at (table k below t) key = integer_at t key

abbrev pub table_at : Table → Bytes → Option Table
table_at nothing key = none
table_at (integer k z t) key = table_at t key
table_at (table k below t) key = if same_text k key then some below else table_at t key

-- A port that does not fit, and a negative time.
abbrev pub port_70000 : Table
port_70000 = integer (codes "listen_port") (pos 70000) nothing

abbrev pub odd_table : Table
odd_table =
    table (codes "defaults")
      (table (codes "connection") (integer (codes "idle_timeout_ms") (negsuc 0) nothing) port_70000)
      nothing

abbrev pub parse_file : Bytes → Option Table
parse_file [] = none
parse_file (c ∷ s) = some odd_table

abbrev pub tables : Toml
tables = record {
  Table = Table;
  parse_file = parse_file;
  table_at = table_at;
  text_at = λ t key. none;
  flag_at = λ t key. none;
  integer_at = integer_at;
}

odd_settings :
    (load_from_file tables true (some (codes "x")) default_settings).1
    ≡ record default_settings { default_listen_port = 4464; default_idle_timeout_ms = 4294967295 }
unfolding load_from_file default_settings read_settings read_limits read_health_check read_defaults
    read_root
odd_settings = refl

load_from_file_lem_example :
    (load_from_file tables true none default_settings
      ≡ (true, default_settings, if true then some (settings_text default_settings) else none))
    × (((parse_file (codes "x") ≡ none)
          × (load_from_file tables true (some (codes "x")) default_settings
              ≡ (false, default_settings, some (codes "x"))))
        ⊎ ((t : Table) × (s' : AppSettings) × (parse_file (codes "x") ≡ some t)
            × (load_from_file tables true (some (codes "x")) default_settings
                ≡ (true, s', some (codes "x")))
            × Loaded tables t default_settings s'))
load_from_file_lem_example =
    load_from_file_lem tables true default_settings (codes "x") default_settings-IsSettingsInRange

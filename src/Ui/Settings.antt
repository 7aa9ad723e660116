-- ===== src/Ui/Settings.antt =====
-- ui/AppSettings.hpp and AppSettings.cpp: the settings of the desktop tool and their file.
pub mod Ranges
pub mod Lines
pub mod RoundTrip
pub mod Loaded
pub mod Reading
use bit_bridge.Prelude.{
  ℤ, pos, cast_unsigned, ℕ, Bool, true, false, if◌then◌else◌, List, [], ◌∷◌, ◌++◌, Bytes, codes,
  format_nat, Option, none, some,
}
use bit_bridge.Ui.Toml.{Toml}

pub record AppSettings : Type 0 where
  pub config_file_path : Bytes
  pub default_name : Bytes
  pub default_listen_address : Bytes
  pub default_listen_port : ℕ
  pub default_routing_algorithm : Bytes
  pub default_health_check_enabled : Bool
  pub default_health_check_interval_ms : ℕ
  pub default_health_check_timeout_ms : ℕ
  pub default_health_check_unhealthy_threshold : ℕ
  pub default_max_per_service : ℕ
  pub default_idle_timeout_ms : ℕ
  pub default_connect_timeout_ms : ℕ

-- The default constructor.
unfoldable pub default_settings : AppSettings
default_settings = record {
  config_file_path = codes "bitbridge-config.yaml";
  default_name = codes "my-bit-bridge-lb";
  default_listen_address = codes "0.0.0.0";
  default_listen_port = 8080;
  default_routing_algorithm = codes "p2c";
  default_health_check_enabled = true;
  default_health_check_interval_ms = 5000;
  default_health_check_timeout_ms = 2000;
  default_health_check_unhealthy_threshold = 3;
  default_max_per_service = 1024;
  default_idle_timeout_ms = 30000;
  default_connect_timeout_ms = 5000;
}

abbrev pub value_or {ℓ} : {A : Type ℓ} → Option A → A → A
value_or none default = default
value_or (some a) default = a

-- `static_cast<T>(node.value_or(static_cast<int64_t>(old)))` for an unsigned type of so many bits.
abbrev pub unsigned_or : ℕ → Option ℤ → ℕ → ℕ
unsigned_or bits o old = cast_unsigned bits (value_or o (pos old))

-- What is written piece by piece.
abbrev pub printed : List Bytes → Bytes
printed [] = []
printed (piece ∷ pieces) = piece ++ printed pieces

-- The text of a file of settings; no character of a setting is escaped.
unfoldable pub settings_text : AppSettings → Bytes
settings_text s = printed (
    codes "# Bit Bridge - User Interface Settings\n"
    ∷ codes "# These values configure the UI defaults, not the load balancer itself.\n\n"
    ∷ codes "# Path to the load balancer configuration file (YAML)\n"
    ∷ codes "config_file_path = \""
    ∷ s.config_file_path
    ∷ codes "\"\n\n"
    ∷ codes "# Default values pre-filled when creating a new configuration\n"
    ∷ codes "[defaults]\n"
    ∷ codes "name = \""
    ∷ s.default_name
    ∷ codes "\"\n"
    ∷ codes "listen_address = \""
    ∷ s.default_listen_address
    ∷ codes "\"\n"
    ∷ codes "listen_port = "
    ∷ format_nat s.default_listen_port
    ∷ codes "\n"
    ∷ codes "routing_algorithm = \""
    ∷ s.default_routing_algorithm
    ∷ codes "\"\n\n"
    ∷ codes "[defaults.health_check]\n"
    ∷ codes "enabled = "
    ∷ (if s.default_health_check_enabled then codes "true" else codes "false")
    ∷ codes "\n"
    ∷ codes "interval_ms = "
    ∷ format_nat s.default_health_check_interval_ms
    ∷ codes "\n"
    ∷ codes "timeout_ms = "
    ∷ format_nat s.default_health_check_timeout_ms
    ∷ codes "\n"
    ∷ codes "unhealthy_threshold = "
    ∷ format_nat s.default_health_check_unhealthy_threshold
    ∷ codes "\n\n"
    ∷ codes "[defaults.connection]\n"
    ∷ codes "max_per_service = "
    ∷ format_nat s.default_max_per_service
    ∷ codes "\n"
    ∷ codes "idle_timeout_ms = "
    ∷ format_nat s.default_idle_timeout_ms
    ∷ codes "\n"
    ∷ codes "connect_timeout_ms = "
    ∷ format_nat s.default_connect_timeout_ms
    ∷ codes "\n"
    ∷ [])

-- `SaveToFile`: what it returns, and what stands in the file behind it. `opens`: the file can be
-- opened for writing.
unfoldable pub save_to_file : Bool → Option Bytes → AppSettings → Bool × Option Bytes
save_to_file opens file s = if opens then (true, some (settings_text s)) else (false, file)

module _ (toml : Toml) where
  open toml use {Table, parse_file, table_at, text_at, flag_at, integer_at}

  unfoldable pub read_root : Table → AppSettings → AppSettings
  read_root t s = record s {
    config_file_path = value_or (text_at t (codes "config_file_path")) s.config_file_path;
  }

  unfoldable pub read_defaults : Option Table → AppSettings → AppSettings
  read_defaults none s = s
  read_defaults (some t) s = record s {
    default_name = value_or (text_at t (codes "name")) s.default_name;
    default_listen_address = value_or (text_at t (codes "listen_address")) s.default_listen_address;
    default_listen_port = unsigned_or 16 (integer_at t (codes "listen_port")) s.default_listen_port;
    default_routing_algorithm =
        value_or (text_at t (codes "routing_algorithm")) s.default_routing_algorithm;
  }

  unfoldable pub read_health_check : Option Table → AppSettings → AppSettings
  read_health_check none s = s
  read_health_check (some t) s = record s {
    default_health_check_enabled =
        value_or (flag_at t (codes "enabled")) s.default_health_check_enabled;
    default_health_check_interval_ms =
        unsigned_or 32 (integer_at t (codes "interval_ms")) s.default_health_check_interval_ms;
    default_health_check_timeout_ms =
        unsigned_or 32 (integer_at t (codes "timeout_ms")) s.default_health_check_timeout_ms;
    default_health_check_unhealthy_threshold =
        unsigned_or 32 (integer_at t (codes "unhealthy_threshold"))
          s.default_health_check_unhealthy_threshold;
  }

  unfoldable pub read_limits : Option Table → AppSettings → AppSettings
  read_limits none s = s
  read_limits (some t) s = record s {
    default_max_per_service =
        unsigned_or 32 (integer_at t (codes "max_per_service")) s.default_max_per_service;
    default_idle_timeout_ms =
        unsigned_or 32 (integer_at t (codes "idle_timeout_ms")) s.default_idle_timeout_ms;
    default_connect_timeout_ms =
        unsigned_or 32 (integer_at t (codes "connect_timeout_ms")) s.default_connect_timeout_ms;
  }

  -- `tbl["defaults"][key].as_table()`, empty where `defaults` is no table.
  abbrev pub below_defaults : Table → Bytes → Option Table
  below_defaults t key = elim (table_at t (codes "defaults")) [
    | none ↦ none
    | some d ↦ table_at d key
  ]

  unfoldable pub read_settings : Table → AppSettings → AppSettings
  read_settings t s = read_limits (below_defaults t (codes "connection")) (
      read_health_check (below_defaults t (codes "health_check"))
        (read_defaults (table_at t (codes "defaults")) (read_root t s)))

  -- `LoadFromFile` with what stands in the file, `none` where there is no file: what it returns, the
  -- settings and the file behind it.
  unfoldable pub load_from_file :
      Bool → Option Bytes → AppSettings → Bool × AppSettings × Option Bytes
  unfolding save_to_file
  load_from_file opens none s = let (ok, file) = save_to_file opens none s in (ok, s, file)
  load_from_file opens (some text) s = elim (parse_file text) [
    | none ↦ (false, s, some text)
    | some t ↦ (true, read_settings t s, some text)
  ]

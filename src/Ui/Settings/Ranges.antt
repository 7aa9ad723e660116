-- ===== src/Ui/Settings/Ranges.antt =====
-- What `LoadFromFile` of ui/AppSettings.cpp leaves in the settings.
use bit_bridge.Prelude.{
  ℤ, pos, negsuc, cast_unsigned, ◌^◌, ◌<◌, ◌≡◌, Bool, true, false, Bytes, Option, none, some, inl,
  inr, Option-cases, arith,
}
use bit_bridge.Ui.Toml.{Toml}
use bit_bridge.Ui.Settings.{
  AppSettings, default_settings, save_to_file, read_root, read_defaults, read_health_check,
  read_limits, read_settings, load_from_file,
}

-- The numbers fit the types of the fields.
pub record IsSettingsInRange (s : AppSettings) : Type 0 where
  pub listen_port_fits : s.default_listen_port < 2 ^ 16
  pub interval_fits : s.default_health_check_interval_ms < 2 ^ 32
  pub timeout_fits : s.default_health_check_timeout_ms < 2 ^ 32
  pub threshold_fits : s.default_health_check_unhealthy_threshold < 2 ^ 32
  pub max_fits : s.default_max_per_service < 2 ^ 32
  pub idle_fits : s.default_idle_timeout_ms < 2 ^ 32
  pub connect_fits : s.default_connect_timeout_ms < 2 ^ 32

cast_unsigned-16 : (z : ℤ) → cast_unsigned 16 z < 2 ^ 16
cast_unsigned-16 (pos n) = omega arith
cast_unsigned-16 (negsuc n) = omega arith

cast_unsigned-32 : (z : ℤ) → cast_unsigned 32 z < 2 ^ 32
cast_unsigned-32 (pos n) = omega arith
cast_unsigned-32 (negsuc n) = omega arith

pub default_settings-IsSettingsInRange : IsSettingsInRange default_settings
unfolding default_settings
default_settings-IsSettingsInRange = record {
  listen_port_fits = omega arith;
  interval_fits = omega arith;
  timeout_fits = omega arith;
  threshold_fits = omega arith;
  max_fits = omega arith;
  idle_fits = omega arith;
  connect_fits = omega arith;
}

module _ (toml : Toml) where
  open toml use {Table, parse_file, table_at, text_at, integer_at}

  pub read_root-IsSettingsInRange :
      (t : Table) (s : AppSettings) → IsSettingsInRange s → IsSettingsInRange (read_root toml t s)
  unfolding read_root
  read_root-IsSettingsInRange t s r = record {
    listen_port_fits = r.listen_port_fits;
    interval_fits = r.interval_fits;
    timeout_fits = r.timeout_fits;
    threshold_fits = r.threshold_fits;
    max_fits = r.max_fits;
    idle_fits = r.idle_fits;
    connect_fits = r.connect_fits;
  }

  pub read_defaults-IsSettingsInRange :
      (o : Option Table) (s : AppSettings)
      → IsSettingsInRange s
      → IsSettingsInRange (read_defaults toml o s)
  unfolding read_defaults
  read_defaults-IsSettingsInRange none s r = r
  read_defaults-IsSettingsInRange (some t) s r = record {
    listen_port_fits = cast_unsigned-16 _;
    interval_fits = r.interval_fits;
    timeout_fits = r.timeout_fits;
    threshold_fits = r.threshold_fits;
    max_fits = r.max_fits;
    idle_fits = r.idle_fits;
    connect_fits = r.connect_fits;
  }

  pub read_health_check-IsSettingsInRange :
      (o : Option Table) (s : AppSettings)
      → IsSettingsInRange s
      → IsSettingsInRange (read_health_check toml o s)
  unfolding read_health_check
  read_health_check-IsSettingsInRange none s r = r
  read_health_check-IsSettingsInRange (some t) s r = record {
    listen_port_fits = r.listen_port_fits;
    interval_fits = cast_unsigned-32 _;
    timeout_fits = cast_unsigned-32 _;
    threshold_fits = cast_unsigned-32 _;
    max_fits = r.max_fits;
    idle_fits = r.idle_fits;
    connect_fits = r.connect_fits;
  }

  pub read_limits-IsSettingsInRange :
      (o : Option Table) (s : AppSettings)
      → IsSettingsInRange s
      → IsSettingsInRange (read_limits toml o s)
  unfolding read_limits
  read_limits-IsSettingsInRange none s r = r
  read_limits-IsSettingsInRange (some t) s r = record {
    listen_port_fits = r.listen_port_fits;
    interval_fits = r.interval_fits;
    timeout_fits = r.timeout_fits;
    threshold_fits = r.threshold_fits;
    max_fits = cast_unsigned-32 _;
    idle_fits = cast_unsigned-32 _;
    connect_fits = cast_unsigned-32 _;
  }

  read_settings-IsSettingsInRange :
      (t : Table) (s : AppSettings)
      → IsSettingsInRange s
      → IsSettingsInRange (read_settings toml t s)
  unfolding read_settings
  read_settings-IsSettingsInRange t s r = read_limits-IsSettingsInRange _ _ (
      read_health_check-IsSettingsInRange _ _
        (read_defaults-IsSettingsInRange _ _ (read_root-IsSettingsInRange t s r)))

  pub load_from_file-IsSettingsInRange :
      (opens : Bool) (file : Option Bytes) (s : AppSettings)
      → IsSettingsInRange s
      → IsSettingsInRange ((load_from_file toml opens file s).1)
  unfolding load_from_file save_to_file
  load_from_file-IsSettingsInRange true none s r = r
  load_from_file-IsSettingsInRange false none s r = r
  load_from_file-IsSettingsInRange opens (some text) s r = elim (Option-cases (parse_file text)) [
    | inl refused ↦
        let same : (load_from_file toml opens (some text) s).1 ≡ s = ground arith in rw same r
    | inr (t, parsed) ↦
        let same : (load_from_file toml opens (some text) s).1 ≡ read_settings toml t s =
          ground arith in
        rw same (read_settings-IsSettingsInRange t s r)
  ]

-- ===== src/Ui/Settings/Reading.antt =====
-- `LoadFromFile` of ui/AppSettings.cpp on every path.
use bit_bridge.Prelude.{
  if◌then◌else◌, ◌⊎◌, ◌≡◌, refl, Bool, true, false, [], ◌∷◌, Bytes, codes, Option, none, some, inl,
  inr, Option-cases, arith,
}
use bit_bridge.Ui.Toml.{Toml}
use bit_bridge.Ui.Settings.{
  AppSettings, value_or, unsigned_or, settings_text, save_to_file, read_root, read_defaults,
  read_health_check, read_limits, below_defaults, read_settings, load_from_file,
}
use bit_bridge.Ui.Settings.Ranges.{
  IsSettingsInRange, read_root-IsSettingsInRange, read_defaults-IsSettingsInRange,
  read_health_check-IsSettingsInRange,
}
use bit_bridge.Ui.Settings.Lines.{table_along}
use bit_bridge.Ui.Settings.RoundTrip.{in_defaults, in_health_check, in_connection}
use bit_bridge.Ui.Settings.Loaded.{
  IsLoaded, in_table, unsigned_or-16, unsigned_or-32, value_or-Replaces,
}

module _ (toml : Toml) where
  open toml use {Table, parse_file, table_at, text_at, flag_at, integer_at}

  -- A table that is not there is read as one without keys.
  abbrev with_defaults : Option Table → AppSettings → AppSettings
  with_defaults o s = record s {
    default_name = value_or (in_table toml text_at o (codes "name")) s.default_name;
    default_listen_address =
        value_or (in_table toml text_at o (codes "listen_address")) s.default_listen_address;
    default_listen_port =
        unsigned_or 16 (in_table toml integer_at o (codes "listen_port")) s.default_listen_port;
    default_routing_algorithm =
        value_or (in_table toml text_at o (codes "routing_algorithm")) s.default_routing_algorithm;
  }

  abbrev with_health : Option Table → AppSettings → AppSettings
  with_health o s = record s {
    default_health_check_enabled =
        value_or (in_table toml flag_at o (codes "enabled")) s.default_health_check_enabled;
    default_health_check_interval_ms =
        unsigned_or 32 (in_table toml integer_at o (codes "interval_ms"))
          s.default_health_check_interval_ms;
    default_health_check_timeout_ms =
        unsigned_or 32 (in_table toml integer_at o (codes "timeout_ms"))
          s.default_health_check_timeout_ms;
    default_health_check_unhealthy_threshold =
        unsigned_or 32 (in_table toml integer_at o (codes "unhealthy_threshold"))
          s.default_health_check_unhealthy_threshold;
  }

  abbrev with_limits : Option Table → AppSettings → AppSettings
  with_limits o s = record s {
    default_max_per_service =
        unsigned_or 32 (in_table toml integer_at o (codes "max_per_service"))
          s.default_max_per_service;
    default_idle_timeout_ms =
        unsigned_or 32 (in_table toml integer_at o (codes "idle_timeout_ms"))
          s.default_idle_timeout_ms;
    default_connect_timeout_ms =
        unsigned_or 32 (in_table toml integer_at o (codes "connect_timeout_ms"))
          s.default_connect_timeout_ms;
  }

  read_defaults-with :
      (o : Option Table) (s : AppSettings)
      → IsSettingsInRange s
      → read_defaults toml o s ≡ with_defaults o s
  unfolding read_defaults
  read_defaults-with none s r = ground (arith, r.listen_port_fits)
  read_defaults-with (some t) s r = refl

  read_health_check-with :
      (o : Option Table) (s : AppSettings)
      → IsSettingsInRange s
      → read_health_check toml o s ≡ with_health o s
  unfolding read_health_check
  read_health_check-with none s r =
      ground (arith, r.interval_fits, r.timeout_fits, r.threshold_fits)
  read_health_check-with (some t) s r = refl

  read_limits-with :
      (o : Option Table) (s : AppSettings)
      → IsSettingsInRange s
      → read_limits toml o s ≡ with_limits o s
  unfolding read_limits
  read_limits-with none s r = ground (arith, r.max_fits, r.idle_fits, r.connect_fits)
  read_limits-with (some t) s r = refl

  below_defaults-along :
      (t : Table) (key : Bytes)
      → below_defaults toml t key ≡ table_along toml t (codes "defaults" ∷ key ∷ [])
  below_defaults-along t key = ground arith

  defaults-along : (t : Table) → table_at t (codes "defaults") ≡ table_along toml t in_defaults
  defaults-along t = ground arith

  with_all-IsLoaded :
      (t : Table) (d h c : Option Table) (s : AppSettings)
      → IsSettingsInRange s
      → IsLoaded toml t d h c s
          (with_limits c (with_health h (with_defaults d (read_root toml t s))))
  unfolding read_root
  with_all-IsLoaded t d h c s r = record {
    path = value_or-Replaces _ _;
    name = value_or-Replaces _ _;
    address = value_or-Replaces _ _;
    port = unsigned_or-16 _ _ r.listen_port_fits;
    algorithm = value_or-Replaces _ _;
    enabled = value_or-Replaces _ _;
    interval = unsigned_or-32 _ _ r.interval_fits;
    timeout = unsigned_or-32 _ _ r.timeout_fits;
    threshold = unsigned_or-32 _ _ r.threshold_fits;
    most = unsigned_or-32 _ _ r.max_fits;
    idle = unsigned_or-32 _ _ r.idle_fits;
    connect = unsigned_or-32 _ _ r.connect_fits;
  }

  -- The settings behind the load of a file's table, with the tables of the file's three headers.
  abbrev pub Loaded : Table → AppSettings → AppSettings → Type 0
  Loaded t s s' =
      IsLoaded toml t (table_along toml t in_defaults) (table_along toml t in_health_check)
        (table_along toml t in_connection) s s'

  read_settings-Loaded :
      (t : Table) (s : AppSettings) → IsSettingsInRange s → Loaded t s (read_settings toml t s)
  unfolding read_settings
  read_settings-Loaded t s r =
      let d = table_along toml t in_defaults in
      let h = table_along toml t in_health_check in
      let c = table_along toml t in_connection in
      let root = read_root toml t s in
      let r0 = read_root-IsSettingsInRange toml t s r in
      let r1 = read_defaults-IsSettingsInRange toml d root r0 in
      let r2 = read_health_check-IsSettingsInRange toml h (read_defaults toml d root) r1 in
      let same : read_settings toml t s ≡ with_limits c (with_health h (with_defaults d root)) =
        ground (
          arith,
          defaults-along t,
          below_defaults-along t (codes "health_check"),
          below_defaults-along t (codes "connection"),
          read_defaults-with d root r0,
          read_health_check-with h (read_defaults toml d root) r1,
          read_limits-with c (read_health_check toml h (read_defaults toml d root)) r2,
        ) in
      rw same (with_all-IsLoaded t d h c s r)

  -- `LoadFromFile`, on every path, where the old settings are within the ranges of their types. Where there is no
  -- file, the settings stay, and the file is written with their text where it can be opened, which is what the
  -- function returns. A file that is no TOML changes nothing, and the function returns false. A file that is read
  -- stays, and the function returns true. Each of the twelve settings then is the value that the file has for it,
  -- in the root or in the table of its header, and stays where the file has none of its type; a number is taken
  -- modulo 2 ^ 16 for the port and modulo 2 ^ 32 for the others, so that one that does not fit, or is negative,
  -- becomes another number.
  pub load_from_file_lem :
      (opens : Bool) (s : AppSettings) (text : Bytes)
      → IsSettingsInRange s
      → (load_from_file toml opens none s
          ≡ (opens, s, if opens then some (settings_text s) else none))
        × (((parse_file text ≡ none)
              × (load_from_file toml opens (some text) s ≡ (false, s, some text)))
            ⊎ ((t : Table) × (s' : AppSettings) × (parse_file text ≡ some t)
                × (load_from_file toml opens (some text) s ≡ (true, s', some text))
                × Loaded t s s'))
  unfolding load_from_file save_to_file
  load_from_file_lem opens s text r = (
    ground arith,
    elim (Option-cases (parse_file text)) [
      | inl refused ↦ inl (refused, ground arith)
      | inr (t, parsed) ↦
          inr (t, read_settings toml t s, parsed, ground arith, read_settings-Loaded t s r)
    ],
  )

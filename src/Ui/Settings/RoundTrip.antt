-- ===== src/Ui/Settings/RoundTrip.antt =====
-- `LoadFromFile` of ui/AppSettings.cpp after `SaveToFile`.
use bit_bridge.Prelude.{◌≡◌, refl, Bool, true, List, [], ◌∷◌, Bytes, codes, Option, some, arith}
use bit_bridge.Ui.Toml.{Toml}
use bit_bridge.Ui.Settings.{
  AppSettings, settings_text, save_to_file, read_root, read_defaults, read_health_check,
  read_limits, read_settings, load_from_file,
}
use bit_bridge.Ui.Settings.Ranges.{IsSettingsInRange}
use bit_bridge.Ui.Settings.Lines.{
  Line, comment, blank, header, entry, text, flag, integer, lines_text, table_along, Reads,
}

-- The keys on the way to the tables.
abbrev pub in_defaults : List Bytes
in_defaults = codes "defaults" ∷ []

abbrev pub in_health_check : List Bytes
in_health_check = codes "defaults" ∷ codes "health_check" ∷ []

abbrev pub in_connection : List Bytes
in_connection = codes "defaults" ∷ codes "connection" ∷ []

-- The lines of a file of settings.
abbrev pub settings_lines : AppSettings → List Line
settings_lines s =
    comment (codes "Bit Bridge - User Interface Settings")
    ∷ comment (codes "These values configure the UI defaults, not the load balancer itself.")
    ∷ blank
    ∷ comment (codes "Path to the load balancer configuration file (YAML)")
    ∷ entry (codes "config_file_path") (text s.config_file_path)
    ∷ blank
    ∷ comment (codes "Default values pre-filled when creating a new configuration")
    ∷ header in_defaults
    ∷ entry (codes "name") (text s.default_name)
    ∷ entry (codes "listen_address") (text s.default_listen_address)
    ∷ entry (codes "listen_port") (integer s.default_listen_port)
    ∷ entry (codes "routing_algorithm") (text s.default_routing_algorithm)
    ∷ blank
    ∷ header in_health_check
    ∷ entry (codes "enabled") (flag s.default_health_check_enabled)
    ∷ entry (codes "interval_ms") (integer s.default_health_check_interval_ms)
    ∷ entry (codes "timeout_ms") (integer s.default_health_check_timeout_ms)
    ∷ entry (codes "unhealthy_threshold") (integer s.default_health_check_unhealthy_threshold)
    ∷ blank
    ∷ header in_connection
    ∷ entry (codes "max_per_service") (integer s.default_max_per_service)
    ∷ entry (codes "idle_timeout_ms") (integer s.default_idle_timeout_ms)
    ∷ entry (codes "connect_timeout_ms") (integer s.default_connect_timeout_ms)
    ∷ []

-- The text that `SaveToFile` writes is that of the lines.
settings_text-lines : (s : AppSettings) → settings_text s ≡ lines_text (settings_lines s)
unfolding settings_text
settings_text-lines s = refl

module _ (toml : Toml) where
  open toml use {Table, parse_file, table_at}

  table_along-one :
      (t u : Table) (key : Bytes) → table_along toml t (key ∷ []) ≡ some u → table_at t key ≡ some u
  table_along-one t u key e = ground arith

  table_along-two :
      (t u w : Table) (key next : Bytes)
      → table_at t key ≡ some u
      → table_along toml t (key ∷ next ∷ []) ≡ some w
      → table_at u next ≡ some w
  table_along-two t u w key next at e = ground arith

  read_settings-lines :
      (s old : AppSettings) (v : Reads toml (settings_lines s))
      → IsSettingsInRange s
      → read_settings toml v.root old ≡ s
  unfolding read_settings read_root read_defaults read_health_check read_limits
  read_settings-lines s old v r =
      let t = v.read [] refl in
      let d = v.read in_defaults refl in
      let h = v.read in_health_check refl in
      let c = v.read in_connection refl in
      let at_d =
        table_along-one v.root (v.table in_defaults) (codes "defaults")
          (v.along in_defaults refl) in
      ground (
        arith,
        at_d,
        table_along-two v.root (v.table in_defaults) (v.table in_health_check) (codes "defaults")
            (codes "health_check") at_d (v.along in_health_check refl),
        table_along-two v.root (v.table in_defaults) (v.table in_connection) (codes "defaults")
            (codes "connection") at_d (v.along in_connection refl),
        v.along [] refl,
        t.text_read (codes "config_file_path") s.config_file_path refl,
        d.text_read (codes "name") s.default_name refl,
        d.text_read (codes "listen_address") s.default_listen_address refl,
        d.integer_read (codes "listen_port") s.default_listen_port refl,
        d.text_read (codes "routing_algorithm") s.default_routing_algorithm refl,
        h.flag_read (codes "enabled") s.default_health_check_enabled refl,
        h.integer_read (codes "interval_ms") s.default_health_check_interval_ms refl,
        h.integer_read (codes "timeout_ms") s.default_health_check_timeout_ms refl,
        h.integer_read (codes "unhealthy_threshold") s.default_health_check_unhealthy_threshold
            refl,
        c.integer_read (codes "max_per_service") s.default_max_per_service refl,
        c.integer_read (codes "idle_timeout_ms") s.default_idle_timeout_ms refl,
        c.integer_read (codes "connect_timeout_ms") s.default_connect_timeout_ms refl,
      )

  -- Settings within the ranges of their types that are written to a file which opens come back from
  -- that file whatever the settings were before, and the file stays as it is, where toml++ reads the
  -- lines that were written as what they mean.
  pub load_from_file-save :
      (s old : AppSettings) (opens : Bool) (file : Option Bytes)
      → Reads toml (settings_lines s)
      → IsSettingsInRange s
      → load_from_file toml opens (save_to_file true file s).1 old
        ≡ (true, s, (save_to_file true file s).1)
  unfolding save_to_file load_from_file
  load_from_file-save s old opens file v r =
      ground (arith, v.parsed, settings_text-lines s, read_settings-lines s old v r)

-- ===== src/Ui/Settings/Loaded.antt =====
-- What the keys of a file make of the settings of ui/AppSettings.cpp.
use bit_bridge.Prelude.{
  ℤ, pos, negsuc, ℕ, ◌+◌, ◌%◌, ◌^◌, ◌<◌, ◌≡◌, refl, Bytes, codes, Option, none, some, arith,
}
use bit_bridge.Ui.Toml.{Toml}
use bit_bridge.Ui.Settings.{AppSettings, value_or, unsigned_or}

-- The value of a key takes the place of the old one, which stays where there is none.
abbrev pub Replaces {ℓ} : {A : Type ℓ} → A → Option A → A → Type ℓ
Replaces old none new = new ≡ old
Replaces old (some a) new = new ≡ a

-- A number modulo 2 ^ bits: the only one of so many bits that differs from it by a multiple of 2 ^ bits.
abbrev pub Wraps : ℕ → ℤ → ℕ → Type 0
Wraps bits (pos n) new = new ≡ n % 2 ^ bits
Wraps bits (negsuc n) new = (new < 2 ^ bits) × ((new + (n + 1)) % 2 ^ bits ≡ 0)

abbrev pub Casts : ℕ → ℕ → Option ℤ → ℕ → Type 0
Casts bits old none new = new ≡ old
Casts bits old (some z) new = Wraps bits z new

pub unsigned_or-16 : (old : ℕ) (o : Option ℤ) → old < 2 ^ 16 → Casts 16 old o (unsigned_or 16 o old)
unsigned_or-16 old none h = omega arith
unsigned_or-16 old (some (pos n)) h = refl
unsigned_or-16 old (some (negsuc n)) h = (omega arith, omega arith)

pub unsigned_or-32 : (old : ℕ) (o : Option ℤ) → old < 2 ^ 32 → Casts 32 old o (unsigned_or 32 o old)
unsigned_or-32 old none h = omega arith
unsigned_or-32 old (some (pos n)) h = refl
unsigned_or-32 old (some (negsuc n)) h = (omega arith, omega arith)

pub value_or-Replaces {ℓ} : {A : Type ℓ} (old : A) (o : Option A) → Replaces old o (value_or o old)
value_or-Replaces old none = refl
value_or-Replaces old (some a) = refl

module _ (toml : Toml) where
  open toml use {Table, parse_file, table_at, text_at, flag_at, integer_at}

  -- The value of a key in a table that may not be there.
  abbrev pub in_table {ℓ} :
      {A : Type ℓ} → (Table → Bytes → Option A) → Option Table → Bytes → Option A
  in_table at none key = none
  in_table at (some t) key = at t key

  -- Settings behind the load of a table, which may have three tables below it.
  pub record IsLoaded (t : Table) (defaults health connection : Option Table) (s s' : AppSettings)
      : Type 0 where
    pub path :
        Replaces s.config_file_path (text_at t (codes "config_file_path")) s'.config_file_path
    pub name : Replaces s.default_name (in_table text_at defaults (codes "name")) s'.default_name
    pub address :
        Replaces s.default_listen_address
          (in_table text_at defaults (codes "listen_address"))
          s'.default_listen_address
    pub port :
        Casts 16 s.default_listen_port
          (in_table integer_at defaults (codes "listen_port"))
          s'.default_listen_port
    pub algorithm :
        Replaces s.default_routing_algorithm
          (in_table text_at defaults (codes "routing_algorithm"))
          s'.default_routing_algorithm
    pub enabled :
        Replaces s.default_health_check_enabled
          (in_table flag_at health (codes "enabled"))
          s'.default_health_check_enabled
    pub interval :
        Casts 32 s.default_health_check_interval_ms
          (in_table integer_at health (codes "interval_ms"))
          s'.default_health_check_interval_ms
    pub timeout :
        Casts 32 s.default_health_check_timeout_ms
          (in_table integer_at health (codes "timeout_ms"))
          s'.default_health_check_timeout_ms
    pub threshold :
        Casts 32 s.default_health_check_unhealthy_threshold
          (in_table integer_at health (codes "unhealthy_threshold"))
          s'.default_health_check_unhealthy_threshold
    pub most :
        Casts 32 s.default_max_per_service
          (in_table integer_at connection (codes "max_per_service"))
          s'.default_max_per_service
    pub idle :
        Casts 32 s.default_idle_timeout_ms
          (in_table integer_at connection (codes "idle_timeout_ms"))
          s'.default_idle_timeout_ms
    pub connect :
        Casts 32 s.default_connect_timeout_ms
          (in_table integer_at connection (codes "connect_timeout_ms"))
          s'.default_connect_timeout_ms

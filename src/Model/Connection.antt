-- ===== src/Model/Connection.antt =====
-- lib/model/ConnectionConfig.hpp and ConnectionConfig.cpp. The numbers are `uint32_t`.
use bit_bridge.Prelude.{ℕ}

pub record ConnectionConfig : Type 0 where
  pub max_per_service : ℕ
  pub idle_timeout_ms : ℕ
  pub connect_timeout_ms : ℕ

-- The default constructor.
unfoldable pub defaults : ConnectionConfig
defaults = record { max_per_service = 1024; idle_timeout_ms = 30000; connect_timeout_ms = 5000 }

unfoldable pub set_max_per_service : ConnectionConfig → ℕ → ConnectionConfig
set_max_per_service c n = record c { max_per_service = n }

unfoldable pub set_idle_timeout_ms : ConnectionConfig → ℕ → ConnectionConfig
set_idle_timeout_ms c ms = record c { idle_timeout_ms = ms }

unfoldable pub set_connect_timeout_ms : ConnectionConfig → ℕ → ConnectionConfig
set_connect_timeout_ms c ms = record c { connect_timeout_ms = ms }

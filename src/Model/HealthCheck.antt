-- ===== src/Model/HealthCheck.antt =====
-- lib/model/HealthCheckConfig.hpp and HealthCheckConfig.cpp. The numbers are `uint32_t`.
use bit_bridge.Prelude.{ℕ, Bool, true}

pub record HealthCheckConfig : Type 0 where
  pub enabled : Bool
  pub interval_ms : ℕ
  pub timeout_ms : ℕ
  pub unhealthy_threshold : ℕ

-- The default constructor.
unfoldable pub defaults : HealthCheckConfig
defaults = record { enabled = true; interval_ms = 5000; timeout_ms = 2000; unhealthy_threshold = 3 }

unfoldable pub set_enabled : HealthCheckConfig → Bool → HealthCheckConfig
set_enabled c enabled = record c { enabled = enabled }

unfoldable pub set_interval_ms : HealthCheckConfig → ℕ → HealthCheckConfig
set_interval_ms c ms = record c { interval_ms = ms }

unfoldable pub set_timeout_ms : HealthCheckConfig → ℕ → HealthCheckConfig
set_timeout_ms c ms = record c { timeout_ms = ms }

unfoldable pub set_unhealthy_threshold : HealthCheckConfig → ℕ → HealthCheckConfig
set_unhealthy_threshold c n = record c { unhealthy_threshold = n }

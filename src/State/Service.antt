-- ===== src/State/Service.antt =====
-- core/state/ServiceState.hpp and ServiceState.cpp: what the load balancer knows of one backend.
-- The event loop has one thread (core/main.cpp), so a call is one change of the state. The loop of
-- `DecrementConnections` is taken apart, with other threads beside it, in State/Atomic.antt.
use bit_bridge.Prelude.{ℕ, ◌+◌, ◌-◌, ◌%◌, ◌^◌, Bool, true, ltb, if◌then◌else◌}
use bit_bridge.Model.Node.{ServiceNode}

-- `size_t` has 64 bits.
abbrev pub size_mod : ℕ
size_mod = 2 ^ 64

pub record ServiceState : Type 0 where
  pub node : ServiceNode
  pub active_connections : ℕ
  pub healthy : Bool
  pub consecutive_failures : ℕ

unfoldable pub new : ServiceNode → ServiceState
new node = record { node = node; active_connections = 0; healthy = true; consecutive_failures = 0 }

-- The copy and the move constructor load each field.
unfoldable pub copy : ServiceState → ServiceState
copy other = record {
  node = other.node;
  active_connections = other.active_connections;
  healthy = other.healthy;
  consecutive_failures = other.consecutive_failures;
}

-- The assignments; the flag is `this == &other`.
unfoldable pub assign : Bool → ServiceState → ServiceState → ServiceState
assign same this other = if same then this else record {
  node = other.node;
  active_connections = other.active_connections;
  healthy = other.healthy;
  consecutive_failures = other.consecutive_failures;
}

-- `fetch_add` wraps.
unfoldable pub increment_connections : ServiceState → ServiceState
increment_connections s = record s { active_connections = (s.active_connections + 1) % size_mod }

-- A counter at zero stays at zero.
unfoldable pub decrement_connections : ServiceState → ServiceState
decrement_connections s =
    if ltb 0 s.active_connections
    then record s { active_connections = s.active_connections - 1 }
    else s

unfoldable pub set_healthy : ServiceState → Bool → ServiceState
set_healthy s healthy = record s { healthy = healthy }

unfoldable pub increment_failures : ServiceState → ServiceState
increment_failures s = record s { consecutive_failures = (s.consecutive_failures + 1) % size_mod }

unfoldable pub reset_failures : ServiceState → ServiceState
reset_failures s = record s { consecutive_failures = 0 }

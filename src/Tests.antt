-- ===== src/Tests.antt =====
-- Concrete runs of the models.
pub mod Model
pub mod Routing
pub mod Health
pub mod Proxy
pub mod System
pub mod Ui
pub mod Window
pub mod Bench
pub mod Phases
pub mod Serialization
pub mod Settings
use bit_bridge.Prelude.{ℕ, ◌^◌, List, [], ◌∷◌, Bytes, codes, Bool, true, false}
use bit_bridge.Model.Node.{ServiceNode, is_valid_ipv4}
use bit_bridge.State.Service.{ServiceState, new}
use bit_bridge.State.Pool.{ServicePool}
use bit_bridge.Routing.Ring.Sort.{Point}
use bit_bridge.Routing.Ring.Members.{Covers}
use bit_bridge.Routing.Ring.Choice.{Fits}

abbrev pub node_a : ServiceNode
node_a = record { name = codes "a"; ip = codes "10.0.0.1"; port = 80; weight = 1 }

abbrev pub node_b : ServiceNode
node_b = record { name = codes "b"; ip = codes "10.0.0.2"; port = 80; weight = 1 }

abbrev pub state_of : ServiceNode → ℕ → Bool → ServiceState
state_of node connections healthy = record {
  node = node;
  active_connections = connections;
  healthy = healthy;
  consecutive_failures = 0;
}

abbrev pub two_services : ServicePool
two_services = state_of node_a 0 true ∷ state_of node_b 0 true ∷ []

-- The first of them down, and the other busy.
abbrev pub one_down : ServicePool
one_down = state_of node_a 0 false ∷ state_of node_b 7 true ∷ []

-- A ring with a point for each service.
abbrev pub small_ring : List Point
small_ring = record { hash = 2 ^ 62; service = 1 } ∷ record { hash = 2 ^ 63; service = 0 } ∷ []

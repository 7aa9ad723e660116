-- ===== src/Model/Balancer.antt =====
-- lib/model/LoadBalancerConfig.hpp and LoadBalancerConfig.cpp: the whole configuration.
pub mod Services
use bit_bridge.Prelude.{ℕ, zero, suc, List, [], ◌∷◌, ◌++◌, Bytes, codes, length, ltb, if◌then◌else◌}
use bit_bridge.Model.Node.{ServiceNode}
use bit_bridge.Model.HealthCheck
use bit_bridge.Model.HealthCheck.{HealthCheckConfig}
use bit_bridge.Model.Connection
use bit_bridge.Model.Connection.{ConnectionConfig}

pub record LoadBalancerConfig : Type 0 where
  pub name : Bytes
  pub listen_address : Bytes
  pub listen_port : ℕ
  pub routing_algorithm : Bytes
  pub services : List ServiceNode
  pub health_check : HealthCheckConfig
  pub connection : ConnectionConfig

-- The default constructor.
unfoldable pub defaults : LoadBalancerConfig
unfolding HealthCheck.defaults Connection.defaults
defaults = record {
  name = codes "my-bit-bridge-lb";
  listen_address = codes "0.0.0.0";
  listen_port = 8080;
  routing_algorithm = codes "p2c";
  services = [];
  health_check = HealthCheck.defaults;
  connection = Connection.defaults;
}

unfoldable pub set_name : LoadBalancerConfig → Bytes → LoadBalancerConfig
set_name c name = record c { name = name }

unfoldable pub set_listen_address : LoadBalancerConfig → Bytes → LoadBalancerConfig
set_listen_address c address = record c { listen_address = address }

unfoldable pub set_listen_port : LoadBalancerConfig → ℕ → LoadBalancerConfig
set_listen_port c port = record c { listen_port = port }

unfoldable pub set_routing_algorithm : LoadBalancerConfig → Bytes → LoadBalancerConfig
set_routing_algorithm c algorithm = record c { routing_algorithm = algorithm }

unfoldable pub add_service : LoadBalancerConfig → ServiceNode → LoadBalancerConfig
add_service c node = record c { services = c.services ++ node ∷ [] }

unfoldable pub clear_services : LoadBalancerConfig → LoadBalancerConfig
clear_services c = record c { services = [] }

-- `vector::erase` at an index inside the vector.
abbrev pub erase_at {ℓ} : {A : Type ℓ} → ℕ → List A → List A
erase_at n [] = []
erase_at zero (x ∷ xs) = xs
erase_at (suc n) (x ∷ xs) = x ∷ erase_at n xs

unfoldable pub remove_service : LoadBalancerConfig → ℕ → LoadBalancerConfig
remove_service c index =
    if ltb index (length c.services) then record c { services = erase_at index c.services } else c

unfoldable pub service_count : LoadBalancerConfig → ℕ
service_count c = length c.services

unfoldable pub set_health_check : LoadBalancerConfig → HealthCheckConfig → LoadBalancerConfig
set_health_check c h = record c { health_check = h }

unfoldable pub set_connection : LoadBalancerConfig → ConnectionConfig → LoadBalancerConfig
set_connection c conn = record c { connection = conn }

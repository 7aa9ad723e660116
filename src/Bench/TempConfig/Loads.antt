-- ===== src/Bench/TempConfig/Loads.antt =====
-- `WriteTempConfig` of bench/main.cpp under `Load` of lib/serialization/YamlConfigSerializer.cpp.
use bit_bridge.Prelude.{
  ℕ, suc, Bool, ◌∙◌, ◌+◌, ◌<◌, ◌^◌, ◌≡◌, refl, ap, false, List, [], ◌∷◌, ◌++◌, map, Bytes, codes,
  format_nat, All, length, some, arith,
}
use bit_bridge.Model.Node.{ServiceNode}
use bit_bridge.Model.HealthCheck
use bit_bridge.Model.HealthCheck.{HealthCheckConfig}
use bit_bridge.Model.Connection.{ConnectionConfig}
use bit_bridge.Model.Balancer
use bit_bridge.Model.Balancer.{
  LoadBalancerConfig, clear_services, set_listen_address, set_listen_port, set_routing_algorithm,
  set_health_check, set_connection,
}
use bit_bridge.Serialization.Yaml.{Yaml}
use bit_bridge.Serialization.Load.{
  loaded, read_health, load_root, load, service_node, connection_node,
}
use bit_bridge.Serialization.RoundTrip.{
  IsNodeInRange, IsInRange, read_connection-connection_node, load_services-map,
}
use bit_bridge.Bench.TempConfig.{print_lines, service_lines, config_lines}
use bit_bridge.Bench.TempConfig.Blocks.{
  Fields, Block, plain, quoted, number, flag, scalar, fields, items, items_lines, block_lines,
  fields_node, block_node, document_node,
}

-- The backends of the benchmark, from an index on.
abbrev pub services_from : ℕ → List ℕ → List ServiceNode
services_from i [] = []
services_from i (port ∷ ports) =
    record {
      name = codes "service-" ++ format_nat (i + 1);
      ip = codes "127.0.0.1";
      port = port;
      weight = 1;
    }
    ∷ services_from (i + 1) ports

-- What a run of the benchmark is to have as its configuration.
abbrev pub temp_config : Bytes → ℕ → List ℕ → LoadBalancerConfig
temp_config algo lb_port service_ports = record {
  name = codes "bench-" ++ algo;
  listen_address = codes "127.0.0.1";
  listen_port = lb_port;
  routing_algorithm = algo;
  services = services_from 0 service_ports;
  health_check = record HealthCheck.defaults { enabled = false };
  connection = record { max_per_service = 2048; idle_timeout_ms = 5000; connect_timeout_ms = 2000 };
}

abbrev service_fields : ServiceNode → Fields
service_fields s =
    (codes "name", plain s.name)
    ∷ (codes "ip", quoted s.ip)
    ∷ (codes "port", number s.port)
    ∷ (codes "weight", number s.weight)
    ∷ []

abbrev connection_fields : ConnectionConfig → Fields
connection_fields c =
    (codes "maxPerService", number c.max_per_service)
    ∷ (codes "idleTimeoutMs", number c.idle_timeout_ms)
    ∷ (codes "connectTimeoutMs", number c.connect_timeout_ms)
    ∷ []

-- A configuration as a document in block style, its health check by its flag alone.
abbrev pub config_block : LoadBalancerConfig → List (Bytes × Block)
config_block c =
    (codes "name", scalar (plain c.name))
    ∷ (codes "listenAddress", scalar (quoted c.listen_address))
    ∷ (codes "listenPort", scalar (number c.listen_port))
    ∷ (codes "routingAlgorithm", scalar (quoted c.routing_algorithm))
    ∷ (codes "services", items (map service_fields c.services))
    ∷ (codes "healthCheck", fields ((codes "enabled", flag c.health_check.enabled) ∷ []))
    ∷ (codes "connection", fields (connection_fields c.connection))
    ∷ []

service_lines-items :
    (i : ℕ) (ports : List ℕ) (rest : List Bytes)
    → service_lines i ports rest ≡ items_lines (map service_fields (services_from i ports)) rest
unfolding service_lines format_nat
service_lines-items i [] rest = refl
service_lines-items i (port ∷ ports) rest =
    ap
      (λ lines.
        (codes "  - name: service-" ++ format_nat (i + 1))
        ∷ codes "    ip: \"127.0.0.1\""
        ∷ (codes "    port: " ++ format_nat port)
        ∷ codes "    weight: 1"
        ∷ lines)
      (service_lines-items (i + 1) ports rest)

-- The lines that are printed are the block style of the configuration.
pub config_lines-block :
    (algo : Bytes) (lb_port : ℕ) (ports : List ℕ)
    → config_lines algo lb_port ports ≡ block_lines (config_block (temp_config algo lb_port ports))
unfolding config_lines format_nat HealthCheck.defaults
config_lines-block algo lb_port ports = rw service_lines-items refl

services_from-IsNodeInRange :
    (i : ℕ) (ports : List ℕ)
    → All (λ p. p < 2 ^ 16) ports
    → All IsNodeInRange (services_from i ports)
services_from-IsNodeInRange i [] h = tt
services_from-IsNodeInRange i (port ∷ ports) h = (
  record { port_fits = h.0; weight_fits = omega arith },
  services_from-IsNodeInRange (i + 1) ports h.1,
)

pub length-services_from : (i : ℕ) (ports : List ℕ) → length (services_from i ports) ≡ length ports
length-services_from i [] = refl
length-services_from i (port ∷ ports) = ap suc (length-services_from (i + 1) ports)

temp_config-IsInRange :
    (algo : Bytes) (lb_port : ℕ) (ports : List ℕ)
    → lb_port < 2 ^ 16
    → All (λ p. p < 2 ^ 16) ports
    → IsInRange (temp_config algo lb_port ports)
unfolding HealthCheck.defaults
temp_config-IsInRange algo lb_port ports h k = record {
  listen_port_fits = h;
  interval_fits = omega arith;
  timeout_fits = omega arith;
  threshold_fits = omega arith;
  max_fits = omega arith;
  idle_fits = omega arith;
  connect_fits = omega arith;
  services_fit = services_from-IsNodeInRange 0 ports k;
}

module _ (yaml : Yaml) where
  open yaml use {
    Node, Document, child, elements, of_flag, of_text, of_number, of_map, of_sequence, parse,
    child_map, elements_sequence, text_text, flag_flag, number_number,
  }

  -- `read_health` of a map with the flag alone.
  read_health-flag :
      (b : Bool)
      → read_health yaml (of_map ((codes "enabled", of_flag b) ∷ []))
        ≡ some (record HealthCheck.defaults { enabled = b })
  unfolding read_health HealthCheck.defaults
  read_health-flag b =
      let at = child_map ((codes "enabled", of_flag b) ∷ []) in
      ground (
        arith,
        at (codes "enabled"),
        at (codes "intervalMs"),
        at (codes "timeoutMs"),
        at (codes "unhealthyThreshold"),
        flag_flag b,
      )

  services_node :
      (services : List ServiceNode)
      → map (fields_node yaml) (map service_fields services) ≡ map (service_node yaml) services
  unfolding service_node
  services_node [] = refl
  services_node (s ∷ services) = ap (λ ns. service_node yaml s ∷ ns) (services_node services)

  connection_fields-node :
      (c : ConnectionConfig) → fields_node yaml (connection_fields c) ≡ connection_node yaml c
  unfolding connection_node
  connection_fields-node c = refl

  -- `Load` of the document, where the health check is the default one but for its flag.
  load_root-block :
      (c old : LoadBalancerConfig)
      → IsInRange c
      → record HealthCheck.defaults { enabled = c.health_check.enabled } ≡ c.health_check
      → load_root yaml (document_node yaml (config_block c)) old ≡ loaded c
  unfolding load_root clear_services Balancer.set_name set_listen_address set_listen_port
      set_routing_algorithm set_health_check set_connection
  load_root-block c old r health =
      let at = child_map (map (λ b. (b.0, block_node yaml b.1)) (config_block c)) in
      ground (
        arith,
        at (codes "name"),
        at (codes "listenAddress"),
        at (codes "listenPort"),
        at (codes "routingAlgorithm"),
        at (codes "healthCheck"),
        at (codes "connection"),
        at (codes "services"),
        text_text c.name,
        text_text c.listen_address,
        number_number 16 c.listen_port r.listen_port_fits,
        text_text c.routing_algorithm,
        read_health-flag c.health_check.enabled,
        connection_fields-node c.connection,
        services_node c.services,
        read_connection-connection_node yaml c.connection r.max_fits r.idle_fits r.connect_fits,
        elements_sequence (map (fields_node yaml) (map service_fields c.services)),
        load_services-map yaml c.services (record c { services = [] }) r.services_fit,
      )

  load-parsed :
      (d : Document) (old : LoadBalancerConfig) {n : Node}
      → parse d ≡ some n
      → load yaml (some d) old ≡ load_root yaml n old
  unfolding load
  load-parsed d old parsed = ground (arith, parsed)

  -- The load balancer reads from the file that is written for an algorithm, a port and the ports of the
  -- services, all of them `uint16_t`, the configuration that the benchmark means.
  pub load-write :
      (file : Bytes → Document) (algo : Bytes) (lb_port : ℕ) (ports : List ℕ)
      (old : LoadBalancerConfig)
      → lb_port < 2 ^ 16
      → All (λ p. p < 2 ^ 16) ports
      → parse (file (print_lines (block_lines (config_block (temp_config algo lb_port ports)))))
        ≡ some (document_node yaml (config_block (temp_config algo lb_port ports)))
      → load yaml (some (file (print_lines (config_lines algo lb_port ports)))) old
        ≡ loaded (temp_config algo lb_port ports)
  load-write file algo lb_port ports old h k parsed =
      ap (λ lines. load yaml (some (file (print_lines lines))) old)
        (config_lines-block algo lb_port ports)
      ∙ load-parsed _ old parsed
      ∙ load_root-block (temp_config algo lb_port ports) old
          (temp_config-IsInRange algo lb_port ports h k) refl

-- ===== src/Serialization/Fields.antt =====
-- The parts of a file of lib/serialization/YamlConfigSerializer.cpp, read as they were written.
use mathlib.Core.List.{append_assoc, append-nil}
use bit_bridge.Prelude.{
  ◌<◌, ◌^◌, ◌≡◌, List, [], ◌∷◌, ◌++◌, map, Bytes, codes, some, lookup, All, arith,
}
use bit_bridge.Model.Node.{ServiceNode}
use bit_bridge.Model.HealthCheck.{HealthCheckConfig}
use bit_bridge.Model.Connection.{ConnectionConfig}
use bit_bridge.Model.Balancer.{LoadBalancerConfig, add_service}
use bit_bridge.Serialization.Yaml.{Yaml}
use bit_bridge.Serialization.Load.{
  loaded, read_health, read_connection, read_service, load_services, health_node, connection_node,
  service_node,
}

-- The numbers fit the types of the fields.
pub record IsNodeInRange (s : ServiceNode) : Type 0 where
  pub port_fits : s.port < 2 ^ 16
  pub weight_fits : s.weight < 2 ^ 16

pub record IsInRange (c : LoadBalancerConfig) : Type 0 where
  pub listen_port_fits : c.listen_port < 2 ^ 16
  pub interval_fits : c.health_check.interval_ms < 2 ^ 32
  pub timeout_fits : c.health_check.timeout_ms < 2 ^ 32
  pub threshold_fits : c.health_check.unhealthy_threshold < 2 ^ 32
  pub max_fits : c.connection.max_per_service < 2 ^ 32
  pub idle_fits : c.connection.idle_timeout_ms < 2 ^ 32
  pub connect_fits : c.connection.connect_timeout_ms < 2 ^ 32
  pub services_fit : All IsNodeInRange c.services

module _ (yaml : Yaml) where
  open yaml use {
    Node, Document, child, elements, as_text, as_flag, as_number, of_text, of_flag, of_number,
    of_map, of_sequence, emit, parse, child_map, elements_sequence, text_text, flag_flag,
    number_number, parse_emit,
  }

  health_child :
      (hc : HealthCheckConfig) (key : Bytes)
      → child (health_node yaml hc) key
        ≡ lookup
            ((codes "enabled", of_flag hc.enabled)
              ∷ (codes "intervalMs", of_number hc.interval_ms)
              ∷ (codes "timeoutMs", of_number hc.timeout_ms)
              ∷ (codes "unhealthyThreshold", of_number hc.unhealthy_threshold)
              ∷ [])
            key
  unfolding health_node
  health_child hc key = child_map _ key

  connection_child :
      (conn : ConnectionConfig) (key : Bytes)
      → child (connection_node yaml conn) key
        ≡ lookup
            ((codes "maxPerService", of_number conn.max_per_service)
              ∷ (codes "idleTimeoutMs", of_number conn.idle_timeout_ms)
              ∷ (codes "connectTimeoutMs", of_number conn.connect_timeout_ms)
              ∷ [])
            key
  unfolding connection_node
  connection_child conn key = child_map _ key

  service_child :
      (node : ServiceNode) (key : Bytes)
      → child (service_node yaml node) key
        ≡ lookup
            ((codes "name", of_text node.name)
              ∷ (codes "ip", of_text node.ip)
              ∷ (codes "port", of_number node.port)
              ∷ (codes "weight", of_number node.weight)
              ∷ [])
            key
  unfolding service_node
  service_child node key = child_map _ key

  pub read_health-health_node :
      (hc : HealthCheckConfig)
      → hc.interval_ms < 2 ^ 32
      → hc.timeout_ms < 2 ^ 32
      → hc.unhealthy_threshold < 2 ^ 32
      → read_health yaml (health_node yaml hc) ≡ some hc
  unfolding read_health
  read_health-health_node hc i t u =
      let at = health_child hc in
      ground (
        arith,
        at (codes "enabled"),
        at (codes "intervalMs"),
        at (codes "timeoutMs"),
        at (codes "unhealthyThreshold"),
        flag_flag hc.enabled,
        number_number 32 hc.interval_ms i,
        number_number 32 hc.timeout_ms t,
        number_number 32 hc.unhealthy_threshold u,
      )

  pub read_connection-connection_node :
      (conn : ConnectionConfig)
      → conn.max_per_service < 2 ^ 32
      → conn.idle_timeout_ms < 2 ^ 32
      → conn.connect_timeout_ms < 2 ^ 32
      → read_connection yaml (connection_node yaml conn) ≡ some conn
  unfolding read_connection
  read_connection-connection_node conn m i t =
      let at = connection_child conn in
      ground (
        arith,
        at (codes "maxPerService"),
        at (codes "idleTimeoutMs"),
        at (codes "connectTimeoutMs"),
        number_number 32 conn.max_per_service m,
        number_number 32 conn.idle_timeout_ms i,
        number_number 32 conn.connect_timeout_ms t,
      )

  read_service-service_node :
      (node : ServiceNode)
      → IsNodeInRange node
      → read_service yaml (service_node yaml node) ≡ some node
  unfolding read_service
  read_service-service_node node r =
      let at = service_child node in
      ground (
        arith,
        at (codes "name"),
        at (codes "ip"),
        at (codes "port"),
        at (codes "weight"),
        text_text node.name,
        text_text node.ip,
        number_number 16 node.port r.port_fits,
        number_number 16 node.weight r.weight_fits,
      )

  pub load_services-map :
      (services : List ServiceNode) (c : LoadBalancerConfig)
      → All IsNodeInRange services
      → load_services yaml (map (service_node yaml) services) c
        ≡ loaded (record c { services = c.services ++ services })
  unfolding load_services add_service
  load_services-map [] c r = ground (arith, append-nil c.services)
  load_services-map (node ∷ services) c r = ground (
    arith,
    read_service-service_node node r.0,
    load_services-map services (add_service c node) r.1,
    append_assoc c.services (node ∷ []) services,
  )

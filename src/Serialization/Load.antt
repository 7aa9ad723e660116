-- ===== src/Serialization/Load.antt =====
-- lib/serialization/YamlConfigSerializer.cpp. The keys of the file are those of the source.
use bit_bridge.Prelude.{
  Bool, if◌then◌else◌, List, [], ◌∷◌, map, codes, Option, none, some, Outcome, returns, throws,
  system_error,
}
use bit_bridge.Model.Node.{ServiceNode}
use bit_bridge.Model.HealthCheck
use bit_bridge.Model.HealthCheck.{HealthCheckConfig}
use bit_bridge.Model.Connection
use bit_bridge.Model.Connection.{ConnectionConfig}
use bit_bridge.Model.Balancer
use bit_bridge.Model.Balancer.{
  LoadBalancerConfig, clear_services, add_service, set_listen_address, set_listen_port,
  set_routing_algorithm, set_health_check, set_connection,
}
use bit_bridge.Serialization.Yaml.{Yaml}

-- `Load` changes the configuration step by step: it ends well, or an exception of yaml-cpp is caught and
-- the configuration stays as the steps before left it.
pub data Loading : Type 0 where
  loaded failed : LoadBalancerConfig → Loading

infixl 5 ◌>>=◌
abbrev pub ◌>>=◌ : Loading → (LoadBalancerConfig → Loading) → Loading
loaded c >>= f = f c
failed c >>= f = failed c

-- What `Save` returns where it returns.
pub data Saving : Type 0 where
  saved not_opened : Saving

module _ (yaml : Yaml) where
  open yaml use {
    Node, Document, child, elements, as_text, as_flag, as_number, of_text, of_flag, of_number,
    of_map, of_sequence, emit, parse,
  }

  -- `if (node[key]) { Set(node[key].as<T>()); }` on the configuration.
  abbrev pub set_field :
      {A : Type 0}
      → Option Node
      → (Node → Option A)
      → (LoadBalancerConfig → A → LoadBalancerConfig)
      → LoadBalancerConfig
      → Loading
  set_field none read put c = loaded c
  set_field (some n) read put c = elim (read n) [ none ↦ failed c | some a ↦ loaded (put c a) ]

  -- The same on a local value; `none` is an exception.
  abbrev pub read_field : {A : Type 0} → Option Node → (Node → Option A) → A → Option A
  read_field none read default = some default
  read_field (some n) read default = read n

  unfoldable pub read_health : Node → Option HealthCheckConfig
  unfolding HealthCheck.defaults
  read_health n =
      elim (read_field (child n (codes "enabled")) as_flag HealthCheck.defaults.enabled) [
        | none ↦ none
        | some enabled ↦
            elim (read_field (child n (codes "intervalMs")) (as_number 32)
              HealthCheck.defaults.interval_ms) [
                | none ↦ none
                | some interval_ms ↦
                    elim (read_field (child n (codes "timeoutMs")) (as_number 32)
                      HealthCheck.defaults.timeout_ms) [
                        | none ↦ none
                        | some timeout_ms ↦
                            elim (read_field (child n (codes "unhealthyThreshold")) (as_number 32)
                              HealthCheck.defaults.unhealthy_threshold) [
                                | none ↦ none
                                | some unhealthy_threshold ↦ some (record {
                                  enabled = enabled;
                                  interval_ms = interval_ms;
                                  timeout_ms = timeout_ms;
                                  unhealthy_threshold = unhealthy_threshold;
                                })
                              ]
                      ]
              ]
      ]

  unfoldable pub read_connection : Node → Option ConnectionConfig
  unfolding Connection.defaults
  read_connection n =
      elim (read_field (child n (codes "maxPerService")) (as_number 32)
        Connection.defaults.max_per_service) [
          | none ↦ none
          | some max_per_service ↦
              elim (read_field (child n (codes "idleTimeoutMs")) (as_number 32)
                Connection.defaults.idle_timeout_ms) [
                  | none ↦ none
                  | some idle_timeout_ms ↦
                      elim (read_field (child n (codes "connectTimeoutMs")) (as_number 32)
                        Connection.defaults.connect_timeout_ms) [
                          | none ↦ none
                          | some connect_timeout_ms ↦ some (record {
                            max_per_service = max_per_service;
                            idle_timeout_ms = idle_timeout_ms;
                            connect_timeout_ms = connect_timeout_ms;
                          })
                        ]
                ]
        ]

  unfoldable pub read_service : Node → Option ServiceNode
  read_service n = elim (read_field (child n (codes "name")) as_text []) [
    | none ↦ none
    | some name ↦ elim (read_field (child n (codes "ip")) as_text []) [
      | none ↦ none
      | some ip ↦ elim (read_field (child n (codes "port")) (as_number 16) 0) [
        | none ↦ none
        | some port ↦ elim (read_field (child n (codes "weight")) (as_number 16) 1) [
          | none ↦ none
          | some weight ↦ some (record { name = name; ip = ip; port = port; weight = weight })
        ]
      ]
    ]
  ]

  -- The loop over `root["services"]`.
  unfoldable pub load_services : List Node → LoadBalancerConfig → Loading
  load_services [] c = loaded c
  load_services (n ∷ ns) c = elim (read_service n) [
    | none ↦ failed c
    | some node ↦ load_services ns (add_service c node)
  ]

  abbrev pub service_nodes : Option Node → List Node
  service_nodes none = []
  service_nodes (some n) = elements n

  unfoldable pub load_root : Node → LoadBalancerConfig → Loading
  load_root root c =
      set_field (child root (codes "name")) as_text Balancer.set_name (clear_services c)
      >>= set_field (child root (codes "listenAddress")) as_text set_listen_address
      >>= set_field (child root (codes "listenPort")) (as_number 16) set_listen_port
      >>= set_field (child root (codes "routingAlgorithm")) as_text set_routing_algorithm
      >>= set_field (child root (codes "healthCheck")) read_health set_health_check
      >>= set_field (child root (codes "connection")) read_connection set_connection
      >>= load_services (service_nodes (child root (codes "services")))

  -- `none` is a file that is not there, or that is no YAML: `LoadFile` throws.
  unfoldable pub load : Option Document → LoadBalancerConfig → Loading
  load none c = failed c
  load (some document) c = elim (parse document) [ none ↦ failed c | some root ↦ load_root root c ]

  unfoldable pub health_node : HealthCheckConfig → Node
  health_node hc = of_map (
      (codes "enabled", of_flag hc.enabled)
      ∷ (codes "intervalMs", of_number hc.interval_ms)
      ∷ (codes "timeoutMs", of_number hc.timeout_ms)
      ∷ (codes "unhealthyThreshold", of_number hc.unhealthy_threshold)
      ∷ [])

  unfoldable pub connection_node : ConnectionConfig → Node
  connection_node conn = of_map (
      (codes "maxPerService", of_number conn.max_per_service)
      ∷ (codes "idleTimeoutMs", of_number conn.idle_timeout_ms)
      ∷ (codes "connectTimeoutMs", of_number conn.connect_timeout_ms)
      ∷ [])

  unfoldable pub service_node : ServiceNode → Node
  service_node service = of_map (
      (codes "name", of_text service.name)
      ∷ (codes "ip", of_text service.ip)
      ∷ (codes "port", of_number service.port)
      ∷ (codes "weight", of_number service.weight)
      ∷ [])

  unfoldable pub config_node : LoadBalancerConfig → Node
  config_node config = of_map (
      (codes "name", of_text config.name)
      ∷ (codes "listenAddress", of_text config.listen_address)
      ∷ (codes "listenPort", of_number config.listen_port)
      ∷ (codes "routingAlgorithm", of_text config.routing_algorithm)
      ∷ (codes "healthCheck", health_node config.health_check)
      ∷ (codes "connection", connection_node config.connection)
      ∷ (codes "services", of_sequence (map service_node config.services))
      ∷ [])

  -- `Save` with what stands in the file. The flags: `create_directories` succeeds, or throws an exception
  -- that is none of yaml-cpp's and is not caught; the file can be opened for writing.
  unfoldable pub save :
      Bool → Bool → Option Document → LoadBalancerConfig → Outcome (Saving × Option Document)
  unfolding config_node
  save has_parent opens file config =
      if has_parent
      then (if opens
          then returns (saved, some (emit (config_node config)))
          else returns (not_opened, file))
      else throws system_error

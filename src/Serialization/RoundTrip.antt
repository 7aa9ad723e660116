-- ===== src/Serialization/RoundTrip.antt =====
-- `Load` of lib/serialization/YamlConfigSerializer.cpp after `Save`.
use bit_bridge.Prelude.{
  ◌⊎◌, inl, inr, Option-cases, ◌≡◌, refl, true, false, [], ◌∷◌, map, Bytes, codes, Option, none,
  some, lookup, returns, arith,
}
use bit_bridge.Model.Balancer
use bit_bridge.Model.Balancer.{
  LoadBalancerConfig, clear_services, add_service, set_listen_address, set_listen_port,
  set_routing_algorithm, set_health_check, set_connection,
}
use bit_bridge.Serialization.Yaml.{Yaml}
use bit_bridge.Serialization.Load.{
  loaded, failed, saved, not_opened, load_root, load, health_node, connection_node, service_node,
  config_node, save,
}
pub use bit_bridge.Serialization.Fields.{
  IsNodeInRange, IsInRange, read_health-health_node, read_connection-connection_node,
  load_services-map,
}

module _ (yaml : Yaml) where
  open yaml use {
    Node, Document, child, of_text, of_number, of_map, of_sequence, emit, parse, child_map,
    elements_sequence, text_text, number_number, parse_emit,
  }

  config_child :
      (config : LoadBalancerConfig) (key : Bytes)
      → child (config_node yaml config) key
        ≡ lookup
            ((codes "name", of_text config.name)
              ∷ (codes "listenAddress", of_text config.listen_address)
              ∷ (codes "listenPort", of_number config.listen_port)
              ∷ (codes "routingAlgorithm", of_text config.routing_algorithm)
              ∷ (codes "healthCheck", health_node yaml config.health_check)
              ∷ (codes "connection", connection_node yaml config.connection)
              ∷ (codes "services", of_sequence (map (service_node yaml) config.services))
              ∷ [])
            key
  unfolding config_node
  config_child config key = child_map _ key

  load_root-config_node :
      (config old : LoadBalancerConfig)
      → IsInRange config
      → load_root yaml (config_node yaml config) old ≡ loaded config
  unfolding load_root clear_services Balancer.set_name set_listen_address set_listen_port
      set_routing_algorithm set_health_check set_connection
  load_root-config_node config old r =
      let at = config_child config in
      ground (
        arith,
        at (codes "name"),
        at (codes "listenAddress"),
        at (codes "listenPort"),
        at (codes "routingAlgorithm"),
        at (codes "healthCheck"),
        at (codes "connection"),
        at (codes "services"),
        text_text config.name,
        text_text config.listen_address,
        number_number 16 config.listen_port r.listen_port_fits,
        text_text config.routing_algorithm,
        read_health-health_node yaml config.health_check r.interval_fits r.timeout_fits
            r.threshold_fits,
        read_connection-connection_node yaml config.connection r.max_fits r.idle_fits
            r.connect_fits,
        elements_sequence (map (service_node yaml) config.services),
        load_services-map yaml config.services (record config { services = [] }) r.services_fit,
      )

  pub load-config_node :
      (config old : LoadBalancerConfig)
      → IsInRange config
      → load yaml (some (emit (config_node yaml config))) old ≡ loaded config
  unfolding load
  load-config_node config old r =
      ground (arith, parse_emit (config_node yaml config), load_root-config_node config old r)

  -- The round trip. Where the numbers of a configuration fit the types of its fields, the directory can be
  -- made and the file opened, `Save` succeeds, and `Load` of the file then gives the same configuration
  -- back in every field, whatever the configuration that it loads into held before. Where the file cannot
  -- be opened, `Save` says so and the file stays as it was.
  pub load-save :
      (config : LoadBalancerConfig) (file : Option Document)
      → IsInRange config
      → ((file' : Option Document) × (save yaml true true file config ≡ returns (saved, file'))
          × ((old : LoadBalancerConfig) → load yaml file' old ≡ loaded config))
        × (save yaml true false file config ≡ returns (not_opened, file))
  unfolding save
  load-save config file r =
      ((some (emit (config_node yaml config)), refl, λ old. load-config_node config old r), refl)

  -- `Load` of a file that is not there fails and leaves the configuration as it was. So does `Load` of one that
  -- is no YAML; where a document is read, `Load` gives and leaves what it would with a configuration without
  -- services.
  load_leaves :
      (document : Document) (c : LoadBalancerConfig)
      → (load yaml none c ≡ failed c)
        × (((parse document ≡ none) × (load yaml (some document) c ≡ failed c))
            ⊎ ((root : Node) × (parse document ≡ some root)
                × (load yaml (some document) c ≡ load yaml (some document) (clear_services c))))
  unfolding load load_root clear_services
  load_leaves document c = (
    refl,
    elim (Option-cases (parse document)) [
      | inl refused ↦ inl (refused, ground arith)
      | inr (root, parsed) ↦ inr (root, parsed, ground arith)
    ],
  )

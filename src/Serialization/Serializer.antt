-- ===== src/Serialization/Serializer.antt =====
-- lib/serialization/IConfigSerializer.hpp, and YamlConfigSerializer.hpp as one.
use bit_bridge.Prelude.{
  ◌≡◌, refl, Bool, true, false, Option, some, Outcome, returns, throws, system_error,
}
use bit_bridge.Model.Balancer.{LoadBalancerConfig}
use bit_bridge.Serialization.Yaml.{Yaml}
use bit_bridge.Serialization.Load
use bit_bridge.Serialization.Load.{Loading, loaded, Saving, saved, not_opened, config_node}
use bit_bridge.Serialization.RoundTrip.{IsInRange, load-config_node}

-- `Load` and `Save` on what stands in a file, with the contract that the users of the interface rely on:
-- `Save` writes what `Load` reads back where the numbers fit their types, or leaves the file alone where it
-- cannot be opened, or throws where the file's directory cannot be made.
pub record ConfigSerializer : Type 1 where
  pub Document : Type 0
  pub load : Option Document → LoadBalancerConfig → Loading
  pub save : Bool → Bool → Option Document → LoadBalancerConfig → Outcome (Saving × Option Document)
  pub written : LoadBalancerConfig → Document
  pub save_written :
      (file : Option Document) (c : LoadBalancerConfig)
      → save true true file c ≡ returns (saved, some (written c))
  pub save_not_opened :
      (file : Option Document) (c : LoadBalancerConfig)
      → save true false file c ≡ returns (not_opened, file)
  pub save_thrown :
      (opens : Bool) (file : Option Document) (c : LoadBalancerConfig)
      → save false opens file c ≡ throws system_error
  pub load_written :
      (c old : LoadBalancerConfig) → IsInRange c → load (some (written c)) old ≡ loaded c

module _ (yaml : Yaml) where
  open yaml use {Document, emit}

  pub save_written :
      (file : Option Document) (c : LoadBalancerConfig)
      → Load.save yaml true true file c ≡ returns (saved, some (emit (config_node yaml c)))
  unfolding Load.save
  save_written file c = refl

  pub save_not_opened :
      (file : Option Document) (c : LoadBalancerConfig)
      → Load.save yaml true false file c ≡ returns (not_opened, file)
  unfolding Load.save
  save_not_opened file c = refl

  pub save_thrown :
      (opens : Bool) (file : Option Document) (c : LoadBalancerConfig)
      → Load.save yaml false opens file c ≡ throws system_error
  unfolding Load.save
  save_thrown opens file c = refl

  -- `YamlConfigSerializer`
  abbrev pub yaml_serializer : ConfigSerializer
  yaml_serializer = record {
    Document = Document;
    load = Load.load yaml;
    save = Load.save yaml;
    written = λ c. emit (config_node yaml c);
    save_written = save_written;
    save_not_opened = save_not_opened;
    save_thrown = save_thrown;
    load_written = load-config_node yaml;
  }

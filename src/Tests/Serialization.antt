-- ===== src/Tests/Serialization.antt =====
-- lib/serialization with a small library of trees in place of yaml-cpp.
use bit_bridge.Prelude.{
  ℕ, ◌<◌, ◌^◌, ◌≡◌, refl, Bool, true, false, ltb, lt→ltb, if◌then◌else◌, List, [], ◌∷◌, Bytes,
  Option, none, some, same_text, lookup, returns, arith,
}
use bit_bridge.Model.Balancer.{LoadBalancerConfig}
use bit_bridge.Serialization.Yaml.{Yaml}
use bit_bridge.Serialization.Load.{loaded, saved, not_opened, load, save}
use bit_bridge.Serialization.RoundTrip.{IsInRange, load-save}
use bit_bridge.Tests.System.{config}

pub data Tree : Type 0 where
  text : Bytes → Tree
  flag : Bool → Tree
  number : ℕ → Tree
  nothing : Tree
  entry : Bytes → Tree → Tree → Tree
  item : Tree → Tree → Tree

abbrev pub of_map : List (Bytes × Tree) → Tree
of_map [] = nothing
of_map ((k, v) ∷ entries) = entry k v (of_map entries)

abbrev pub of_sequence : List Tree → Tree
of_sequence [] = nothing
of_sequence (t ∷ ts) = item t (of_sequence ts)

abbrev pub child : Tree → Bytes → Option Tree
child (entry k v rest) key = if same_text k key then some v else child rest key
child _ key = none

abbrev pub elements : Tree → List Tree
elements (item t ts) = t ∷ elements ts
elements _ = []

abbrev pub as_text : Tree → Option Bytes
as_text (text s) = some s
as_text _ = none

abbrev pub as_flag : Tree → Option Bool
as_flag (flag b) = some b
as_flag _ = none

abbrev pub as_number : ℕ → Tree → Option ℕ
as_number bits (number n) = if ltb n (2 ^ bits) then some n else none
as_number bits _ = none

pub child_map :
    (entries : List (Bytes × Tree)) (key : Bytes) → child (of_map entries) key ≡ lookup entries key
child_map [] key = refl
child_map ((k, v) ∷ entries) key = ground (arith, child_map entries key)

pub elements_sequence : (nodes : List Tree) → elements (of_sequence nodes) ≡ nodes
elements_sequence [] = refl
elements_sequence (t ∷ ts) = ground (arith, elements_sequence ts)

pub number_number : (bits n : ℕ) → n < 2 ^ bits → as_number bits (number n) ≡ some n
number_number bits n h = rw (lt→ltb n (2 ^ bits) h) refl

abbrev pub trees : Yaml
trees = record {
  Node = Tree;
  child = child;
  elements = elements;
  as_text = as_text;
  as_flag = as_flag;
  as_number = as_number;
  of_text = text;
  of_flag = flag;
  of_number = number;
  of_map = of_map;
  of_sequence = of_sequence;
  Document = Tree;
  emit = λ t. t;
  parse = λ t. some t;
  child_map = child_map;
  elements_sequence = elements_sequence;
  text_text = λ s. refl;
  flag_flag = λ b. refl;
  number_number = number_number;
  parse_emit = λ t. refl;
}

config-IsInRange : IsInRange config
config-IsInRange = record {
  listen_port_fits = omega arith;
  interval_fits = omega arith;
  timeout_fits = omega arith;
  threshold_fits = omega arith;
  max_fits = omega arith;
  idle_fits = omega arith;
  connect_fits = omega arith;
  services_fit = (
    record { port_fits = omega arith; weight_fits = omega arith },
    (record { port_fits = omega arith; weight_fits = omega arith }, tt),
  );
}

load-save_example :
    ((file' : Option Tree) × (save trees true true none config ≡ returns (saved, file'))
      × ((old : LoadBalancerConfig) → load trees file' old ≡ loaded config))
    × (save trees true false none config ≡ returns (not_opened, none))
load-save_example = load-save trees config none config-IsInRange

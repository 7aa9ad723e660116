-- ===== src/Ui/MainFrame.antt =====
-- ui/MainFrame.hpp and MainFrame.cpp: the window of the desktop tool. A handler gives the window behind it
-- and the message box that it shows, if any. Widgets are kept as what the handlers read of them.
pub mod Files
pub mod Removal
pub mod Adding
pub mod Sound
pub mod Events
pub mod Kept
pub mod Steps
pub mod Runs
use bit_bridge.Prelude.{
  ℕ, zero, suc, ◌+◌, ◌-◌, ◌%◌, ◌^◌, ltb, ◌==◌, Bool, true, false, not, ◌&&◌, ◌||◌, if◌then◌else◌,
  List, [], ◌∷◌, map, Bytes, codes, format_nat, same_text, Option, none, some, Outcome, returns,
  ◌>>=◌,
}
use bit_bridge.Model.Node.{ServiceNode, is_empty, is_valid}
use bit_bridge.Model.Balancer
use bit_bridge.Model.Balancer.{
  LoadBalancerConfig, add_service, remove_service, set_listen_address, set_listen_port,
  set_routing_algorithm, set_health_check, set_connection,
}
use bit_bridge.Serialization.Yaml.{Yaml}
use bit_bridge.Serialization.Load
use bit_bridge.Serialization.Load.{Loading, loaded, failed, Saving, saved, not_opened}
use bit_bridge.Ui.Settings.{AppSettings, value_or}

-- A line of the list control.
pub record Row : Type 0 where
  pub name : Bytes
  pub ip : Bytes
  pub port : Bytes
  pub weight : Bytes
  pub selected : Bool

-- What has the focus.
pub data Focus : Type 0 where
  on_name on_ip on_port on_weight elsewhere : Focus

pub data Message : Type 0 where
  name_empty ip_empty port_empty bad_port bad_weight bad_ip : Message
  same_name : Bytes → Message
  same_address : Bytes → ℕ → Message
  no_selection not_found not_parsed not_saved : Message

pub record MainFrame : Type 0 where
  pub settings : AppSettings
  pub config : LoadBalancerConfig
  pub rows : List Row
  pub name_input : Bytes
  pub ip_input : Bytes
  pub port_input : Bytes
  pub weight_input : Bytes
  pub focus : Focus
  pub empty_label : Bool
  pub unsaved_label : Bool
  pub has_unsaved_changes : Bool

unfoldable pub row_of : ServiceNode → Row
row_of s = record {
  name = s.name;
  ip = s.ip;
  port = format_nat s.port;
  weight = format_nat s.weight;
  selected = false;
}

unfoldable pub refresh_service_list : MainFrame → MainFrame
unfolding row_of
refresh_service_list m = record m {
  rows = map row_of m.config.services;
  empty_label = is_empty m.config.services;
}

unfoldable pub mark_unsaved : MainFrame → MainFrame
mark_unsaved m = record m { has_unsaved_changes = true; unsaved_label = true }

unfoldable pub mark_saved : MainFrame → MainFrame
mark_saved m = record m { has_unsaved_changes = false; unsaved_label = false }

unfoldable pub apply_default_config : AppSettings → LoadBalancerConfig → LoadBalancerConfig
unfolding Balancer.set_name set_listen_address set_listen_port set_routing_algorithm
    set_health_check set_connection
apply_default_config s c =
    let named = Balancer.set_name c s.default_name in
    let addressed = set_listen_address named s.default_listen_address in
    let bound = set_listen_port addressed s.default_listen_port in
    let routed = set_routing_algorithm bound s.default_routing_algorithm in
    let checked = set_health_check routed (record {
      enabled = s.default_health_check_enabled;
      interval_ms = s.default_health_check_interval_ms;
      timeout_ms = s.default_health_check_timeout_ms;
      unhealthy_threshold = s.default_health_check_unhealthy_threshold;
    }) in
    set_connection checked (record {
      max_per_service = s.default_max_per_service;
      idle_timeout_ms = s.default_idle_timeout_ms;
      connect_timeout_ms = s.default_connect_timeout_ms;
    })

-- `tabOrder`: the place of an input in it, and the input at a place.
abbrev input_index : Focus → Option ℕ
input_index on_name = some 0
input_index on_ip = some 1
input_index on_port = some 2
input_index on_weight = some 3
input_index elsewhere = none

abbrev input_at : ℕ → Focus
input_at zero = on_name
input_at (suc zero) = on_ip
input_at (suc (suc zero)) = on_port
input_at (suc (suc (suc i))) = on_weight

-- The Tab key, or, with `shift`, Shift and Tab.
unfoldable pub handle_tab_navigation : Bool → MainFrame → MainFrame
handle_tab_navigation shift m = elim (input_index m.focus) [
  | none ↦ m
  | some i ↦ record m { focus = input_at ((if shift then i + 4 - 1 else i + 1) % 4) }
]

-- The loop over `GetNextItem`: the selected lines, in ascending order.
unfoldable pub selected_from : ℕ → List Row → List ℕ
selected_from i [] = []
selected_from i (r ∷ rows) =
    let rest = selected_from (suc i) rows in if r.selected then i ∷ rest else rest

-- The loop over `reverse_view`: the last index is removed first.
unfoldable pub remove_reversed : List ℕ → LoadBalancerConfig → LoadBalancerConfig
unfolding remove_service
remove_reversed [] c = c
remove_reversed (i ∷ is) c = remove_service (remove_reversed is c) i

unfoldable pub on_remove_service : MainFrame → MainFrame × Option Message
unfolding selected_from remove_reversed refresh_service_list mark_unsaved
on_remove_service m = elim (selected_from 0 m.rows) [
  | [] ↦ (m, some no_selection)
  | i ∷ is ↦ (
    mark_unsaved (refresh_service_list (record m { config = remove_reversed (i ∷ is) m.config })),
    none,
  )
]

-- The loop over the services for one of the same name or the same address and port.
unfoldable pub duplicate : List ServiceNode → Bytes → Bytes → ℕ → Option Message
duplicate [] name ip port = none
duplicate (existing ∷ services) name ip port =
    let rest = duplicate services name ip port in
    if same_text existing.name name
    then some (same_name name)
    else if same_text existing.ip ip && existing.port == port % 2 ^ 16
    then some (same_address ip port)
    else rest

-- `wxString::ToULong`, `none` where it fails.
module _ (to_ulong : Bytes → Option ℕ) where
  -- `text.ToULong(&n) && n != 0 && n <= 65535`
  abbrev pub is_port : Option ℕ → Bool
  is_port none = false
  is_port (some n) = not (n == 0) && not (ltb 65535 n)

  -- `none` where the inputs are accepted.
  unfoldable pub validate_input : Bytes → Bytes → Bytes → Bytes → Option Message
  unfolding is_valid
  validate_input name ip port weight =
      if is_empty name
      then some name_empty
      else if is_empty ip
      then some ip_empty
      else if is_empty port
      then some port_empty
      else if not (is_port (to_ulong port))
      then some bad_port
      else if not (is_port (to_ulong weight))
      then some bad_weight
      else if not (
          is_valid (record {
            name = codes "test";
            ip = ip;
            port = value_or (to_ulong port) 0 % 2 ^ 16;
            weight = 1;
          }))
      then some bad_ip
      else none

  -- The service that the inputs describe.
  unfoldable pub entered_service : MainFrame → ServiceNode
  entered_service m = record {
    name = m.name_input;
    ip = m.ip_input;
    port = value_or (to_ulong m.port_input) 0 % 2 ^ 16;
    weight = value_or (to_ulong m.weight_input) 1 % 2 ^ 16;
  }

  unfoldable pub on_add_service : MainFrame → MainFrame × Option Message
  unfolding validate_input duplicate entered_service add_service refresh_service_list mark_unsaved
  on_add_service m = elim (validate_input m.name_input m.ip_input m.port_input m.weight_input) [
    | some message ↦ (m, some message)
    | none ↦
        elim (duplicate m.config.services m.name_input m.ip_input
          (value_or (to_ulong m.port_input) 0)) [
            | some message ↦ (m, some message)
            | none ↦ (
              record (mark_unsaved (
                  refresh_service_list
                    (record m { config = add_service m.config (entered_service m) }))) {
                      name_input = [];
                      ip_input = [];
                      port_input = [];
                      weight_input = codes "1";
                      focus = on_name;
                    },
              none,
            )
          ]
  ]

-- The window of the constructor before it looks for a file: no line, no text in the inputs but a weight,
-- and the default configuration of the settings.
unfoldable pub blank_frame : AppSettings → MainFrame
unfolding apply_default_config Balancer.defaults
blank_frame settings = record {
  settings = settings;
  config = apply_default_config settings Balancer.defaults;
  rows = [];
  name_input = [];
  ip_input = [];
  port_input = [];
  weight_input = codes "1";
  focus = elsewhere;
  empty_label = true;
  unsaved_label = false;
  has_unsaved_changes = false;
}

-- ===== src/Tests/Window.antt =====
-- ui/MainFrame.cpp and core/main.cpp: a window in which a service is entered, saved and deployed.
use bit_bridge.Prelude.{
  ℕ, ◌≡◌, ◌≢◌, refl, true, false, if◌then◌else◌, ◌&&◌, not, List, [], ◌∷◌, Bytes, codes, stoi,
  format_nat, All, Any, Option, none, some, returns, throws, system_error, value, ◌⊎◌, inl, arith,
}
use bit_bridge.Model.Node.{is_empty, all_digits, is_valid_ipv4}
use bit_bridge.Model.Node.Ipv4.{is_valid_ipv4_iff}
use bit_bridge.Model.HealthCheck
use bit_bridge.Model.Connection
use bit_bridge.Model.Balancer
use bit_bridge.Model.Balancer.{LoadBalancerConfig}
use bit_bridge.State.Pool.{make_pool}
use bit_bridge.Routing.P2c
use bit_bridge.Serialization.Load
use bit_bridge.Serialization.Load.{loaded}
use bit_bridge.System.{System}
use bit_bridge.System.Startup.{AnyState, make_strategy, start_up}
use bit_bridge.System.Program.{KeepsRunning}
use bit_bridge.System.Deployed.{window_deploys}
use bit_bridge.Ui.Settings.{default_settings}
use bit_bridge.Ui.App.{on_init}
use bit_bridge.Ui.MainFrame.{
  MainFrame, Message, on_name, on_ip, on_port, blank_frame, on_add_service, on_remove_service,
  entered_service, validate_input, no_selection, selected_from, refresh_service_list, mark_unsaved,
}
use bit_bridge.Ui.MainFrame.Files.{make_frame}
use bit_bridge.Ui.MainFrame.Removal.{unselected, on_remove_service_lem}
use bit_bridge.Ui.MainFrame.Adding.{IsAccepted, Differ, Clash, added, on_add_service_lem}
use bit_bridge.Ui.MainFrame.Events
use bit_bridge.Ui.MainFrame.Events.{Desk, typed, selected, add, remove, load, save}
use bit_bridge.Ui.MainFrame.Kept.{IsKept}
use bit_bridge.Ui.MainFrame.Steps.{Unwritable}
use bit_bridge.Ui.MainFrame.Runs.{window_keeps}
use bit_bridge.Tests.Routing.{remainder}
use bit_bridge.Serialization.Serializer.{ConfigSerializer, yaml_serializer}
use bit_bridge.Tests.Serialization.{Tree, trees}
use bit_bridge.Tests.{node_a}
use bit_bridge.Tests.System.{any_port}
use bit_bridge.Tests.Ui.{tables}

abbrev serializer : ConfigSerializer
serializer = yaml_serializer trees

-- Digits alone are a number.
abbrev to_ulong : Bytes → Option ℕ
unfolding all_digits
to_ulong s = if not (is_empty s) && all_digits s then some (stoi s) else none

abbrev opened : Desk Tree
opened = on_init tables serializer true none (λ path. none)

-- A service is entered, then one of the same name, then the list is saved.
abbrev entries : List Events.Event
entries =
    typed on_name (codes "a")
    ∷ typed on_ip (codes "10.0.0.1")
    ∷ typed on_port (codes "80")
    ∷ add
    ∷ typed on_name (codes "a")
    ∷ typed on_ip (codes "10.0.0.2")
    ∷ typed on_port (codes "80")
    ∷ add
    ∷ save true true
    ∷ []

abbrev final_config : LoadBalancerConfig
final_config = record {
  name = codes "my-bit-bridge-lb";
  listen_address = codes "0.0.0.0";
  listen_port = 8080;
  routing_algorithm = codes "p2c";
  services = node_a ∷ [];
  health_check = HealthCheck.defaults;
  connection = Connection.defaults;
}

abbrev final : Desk Tree
final = record {
  frame = record {
    settings = default_settings;
    config = final_config;
    rows =
        record {
          name = codes "a";
          ip = codes "10.0.0.1";
          port = codes "80";
          weight = codes "1";
          selected = false;
        }
        ∷ [];
    name_input = codes "a";
    ip_input = codes "10.0.0.2";
    port_input = codes "80";
    weight_input = codes "1";
    focus = on_name;
    empty_label = false;
    unsaved_label = false;
    has_unsaved_changes = false;
  };
  file = some (Load.config_node trees final_config);
}

ran : Events.run to_ulong serializer entries opened ≡ returns final
unfolding Events.run to_ulong on_init make_frame default_settings HealthCheck.defaults
    Connection.defaults Load.save format_nat
ran = refl

abbrev entered : MainFrame
entered = record (blank_frame default_settings) {
  name_input = codes "a";
  ip_input = codes "10.0.0.1";
  port_input = codes "80";
}

on_add_service_lem_example :
    ((message : Message) × (on_add_service to_ulong entered ≡ (entered, some message))
      × ((validate_input to_ulong entered.name_input entered.ip_input entered.port_input
              entered.weight_input
            ≡ some message)
          ⊎ Any (Clash (entered_service to_ulong entered)) entered.config.services))
    ⊎ (IsAccepted (entered_service to_ulong entered)
        × All (λ t. Differ t (entered_service to_ulong entered)) entered.config.services
        × (on_add_service to_ulong entered ≡ (added to_ulong entered, none)))
on_add_service_lem_example = on_add_service_lem to_ulong entered

on_remove_service_lem_example :
    ((selected_from 0 final.frame.rows ≡ [])
      × (on_remove_service final.frame ≡ (final.frame, some no_selection)))
    ⊎ ((selected_from 0 final.frame.rows ≢ [])
        × (on_remove_service final.frame ≡ (
          mark_unsaved (
              refresh_service_list (record final.frame {
                config = record final.frame.config {
                  services = unselected final.frame.rows final.frame.config.services;
                };
              })),
          none,
        )))
on_remove_service_lem_example = on_remove_service_lem final.frame refl

window_keeps_example :
    ((last : Desk Tree) × (Events.run to_ulong serializer entries opened ≡ returns last)
      × IsKept serializer last)
    ⊎ ((Events.run to_ulong serializer entries opened ≡ throws system_error)
        × Any Unwritable entries)
window_keeps_example =
    window_keeps to_ulong tables serializer true none (λ path. none) entries
      (unfold on_init in (inl refl))

started :
    make_strategy final_config.routing_algorithm (make_pool final_config.services) 1
    ≡ some (returns (inl (P2c.make 1)))
unfolding make_strategy
started = refl

window_deploys_example :
    (serializer.load final.file Balancer.defaults ≡ loaded final_config)
    × ((t : System AnyState) × (start_up any_port 2 (value final_config) 1 ≡ returns (value t))
        × KeepsRunning is_valid_ipv4 remainder 5 t)
window_deploys_example =
    window_deploys serializer to_ulong is_valid_ipv4 any_port remainder 5 2 1 tables true none
      (λ path. none) entries final (inl (P2c.make 1)) (unfold on_init in (inl refl)) ran refl
      (omega arith) (omega arith) started (ground arith)
      (λ ip dotted. (is_valid_ipv4_iff ip).1 dotted)

-- ===== src/Ui/MainFrame/Sound.antt =====
-- The configurations that the window of ui/MainFrame.cpp edits.
use bit_bridge.Prelude.{List, [], ◌∷◌, ◌++◌, All, All-append, arith}
use bit_bridge.Model.Node.{ServiceNode}
use bit_bridge.Model.Balancer
use bit_bridge.Model.Balancer.{
  LoadBalancerConfig, add_service, set_listen_address, set_listen_port, set_routing_algorithm,
  set_health_check, set_connection,
}
use bit_bridge.Serialization.RoundTrip.{IsNodeInRange, IsInRange}
use bit_bridge.Ui.Settings.{AppSettings}
use bit_bridge.Ui.Settings.Ranges.{IsSettingsInRange}
use bit_bridge.Ui.MainFrame.{Row, apply_default_config}
use bit_bridge.Ui.MainFrame.Adding.{IsAccepted, Differ}
use bit_bridge.Ui.MainFrame.Removal.{unselected}

-- No two services have the same name, or the same address and port.
abbrev pub Distinct : List ServiceNode → Type 0
Distinct [] = Unit {0}
Distinct (s ∷ services) = All (Differ s) services × Distinct services

pub record IsSound (c : LoadBalancerConfig) : Type 0 where
  pub in_range : IsInRange c
  pub accepted : All IsAccepted c.services
  pub distinct : Distinct c.services

All-unselected :
    (P : ServiceNode → Type 0) (rows : List Row) (services : List ServiceNode)
    → All P services
    → All P (unselected rows services)
All-unselected P [] services h = h
All-unselected P (r ∷ rows) [] h = tt
All-unselected P (r ∷ rows) (s ∷ services) h = ground (arith, All-unselected P rows services)

unselected-Distinct :
    (rows : List Row) (services : List ServiceNode)
    → Distinct services
    → Distinct (unselected rows services)
unselected-Distinct [] services h = h
unselected-Distinct (r ∷ rows) [] h = tt
unselected-Distinct (r ∷ rows) (s ∷ services) h =
    ground (arith, unselected-Distinct rows services, All-unselected (Differ s) rows services)

append-Distinct :
    (services : List ServiceNode) (s : ServiceNode)
    → Distinct services
    → All (λ t. Differ t s) services
    → Distinct (services ++ s ∷ [])
append-Distinct [] s d h = (tt, tt)
append-Distinct (t ∷ services) s d h =
    (All-append (Differ t) services (s ∷ []) d.0 (h.0, tt), append-Distinct services s d.1 h.1)

All-IsNodeInRange :
    (services : List ServiceNode) → All IsAccepted services → All IsNodeInRange services
All-IsNodeInRange [] h = tt
All-IsNodeInRange (s ∷ services) h = (
  record { port_fits = h.0.port_fits; weight_fits = h.0.weight_fits },
  All-IsNodeInRange services h.1,
)

-- Other services in place of those of a configuration.
IsSound-services :
    (c : LoadBalancerConfig) (services : List ServiceNode)
    → IsInRange c
    → All IsAccepted services
    → Distinct services
    → IsSound (record c { services = services })
IsSound-services c services r a d = record {
  in_range = record {
    listen_port_fits = r.listen_port_fits;
    interval_fits = r.interval_fits;
    timeout_fits = r.timeout_fits;
    threshold_fits = r.threshold_fits;
    max_fits = r.max_fits;
    idle_fits = r.idle_fits;
    connect_fits = r.connect_fits;
    services_fit = All-IsNodeInRange services a;
  };
  accepted = a;
  distinct = d;
}

pub unselected-IsSound :
    (c : LoadBalancerConfig) (rows : List Row)
    → IsSound c
    → IsSound (record c { services = unselected rows c.services })
unselected-IsSound c rows h =
    IsSound-services c (unselected rows c.services) h.in_range
      (All-unselected IsAccepted rows c.services h.accepted)
      (unselected-Distinct rows c.services h.distinct)

pub add_service-IsSound :
    (c : LoadBalancerConfig) (s : ServiceNode)
    → IsSound c
    → IsAccepted s
    → All (λ t. Differ t s) c.services
    → IsSound (add_service c s)
unfolding add_service
add_service-IsSound c s h a d =
    IsSound-services c (c.services ++ s ∷ []) h.in_range
      (All-append IsAccepted c.services (s ∷ []) h.accepted (a, tt))
      (append-Distinct c.services s h.distinct d)

-- The configuration of a new window.
pub apply_default_config-IsSound :
    (s : AppSettings) → IsSettingsInRange s → IsSound (apply_default_config s Balancer.defaults)
unfolding apply_default_config Balancer.defaults Balancer.set_name set_listen_address
    set_listen_port set_routing_algorithm set_health_check set_connection
apply_default_config-IsSound s r = record {
  in_range = record {
    listen_port_fits = r.listen_port_fits;
    interval_fits = r.interval_fits;
    timeout_fits = r.timeout_fits;
    threshold_fits = r.threshold_fits;
    max_fits = r.max_fits;
    idle_fits = r.idle_fits;
    connect_fits = r.connect_fits;
    services_fit = tt;
  };
  accepted = tt;
  distinct = tt;
}

-- ===== src/Tests/System.antt =====
-- The program of core/main.cpp on a small configuration.
use bit_bridge.Proxy.TcpProxy.Addresses.{Addressed}
use bit_bridge.System.Shared.{IsRunning}
use bit_bridge.Prelude.{
  ℕ, ◌≤◌, ◌<◌, ◌≡◌, refl, Bool, true, false, List, [], ◌∷◌, Bytes, codes, length, All, none, some,
  returns, value, unexpected, arith, ◌⊎◌, inl, ltb,
}
use bit_bridge.Model.Node.{is_valid_ipv4}
use bit_bridge.Model.Balancer.{LoadBalancerConfig}
use bit_bridge.State.Service.{size_mod}
use bit_bridge.State.Pool.{make_pool}
use bit_bridge.Routing.Ring.Sort.{Point}
use bit_bridge.Routing.P2c
use bit_bridge.Routing.Strategies.{ring_strategy}
use bit_bridge.Health.Checker.{timer, probe_done}
use bit_bridge.Proxy.Session
use bit_bridge.Proxy.TcpProxy.{on_accepted, on_session, client}
use bit_bridge.Proxy.TcpProxy.Runs.{IsPrompt}
use bit_bridge.System.{System, Event, of_proxy, of_health, signal, run}
use bit_bridge.System.Runs.{Readable, system_serves}
use bit_bridge.System.Startup.{AnyState, any_strategy, usage, make_strategy, start_up}
use bit_bridge.System.Program.{program_serves}
use bit_bridge.System.Starting.{WithArgument, start_up-cases}
use bit_bridge.Tests.{node_a, node_b}
use bit_bridge.Tests.Routing.{remainder}
use bit_bridge.Tests.Health.{checking, two_services-Accepted}
use bit_bridge.Tests.Proxy.{listening, listening-IsServing}

abbrev whole : System (List Point)
whole = record { proxy = listening; checker = some checking; signals = true }

whole-IsRunning : IsRunning ring_strategy is_valid_ipv4 whole
whole-IsRunning = record {
  serving = listening-IsServing;
  checked = λ c e.
      let same : checking ≡ c = cc in
      rw (← same) (
        refl,
        record { accepted = two_services-Accepted; inside = (omega arith, (omega arith, tt)) },
      );
}

-- A client, a failed probe, a second client, the client's session, a round, and a signal.
abbrev turns : List Event
turns =
    of_proxy (on_accepted (client (some (codes "10.1.1.1"))))
    ∷ of_health (probe_done 1 true)
    ∷ of_proxy (on_accepted (client (some (codes "10.1.1.1"))))
    ∷ of_proxy (on_session 0 (Session.connected true))
    ∷ of_health (timer false)
    ∷ signal false
    ∷ []

system_serves_example :
    ((t : System (List Point)) × (run ring_strategy is_valid_ipv4 whole turns ≡ some (returns t))
      × IsRunning ring_strategy is_valid_ipv4 t)
    ⊎ ((run ring_strategy is_valid_ipv4 whole turns ≡ none)
        × ¬ IsPrompt ring_strategy is_valid_ipv4)
system_serves_example =
    system_serves ring_strategy is_valid_ipv4 whole turns (tt, (tt, (tt, (tt, (tt, (tt, tt))))))
      (omega arith) whole-IsRunning

abbrev pub config : LoadBalancerConfig
config = record {
  name = codes "lb";
  listen_address = codes "0.0.0.0";
  listen_port = 8080;
  routing_algorithm = codes "p2c";
  services = node_a ∷ node_b ∷ [];
  health_check = record {
    enabled = true;
    interval_ms = 5000;
    timeout_ms = 2000;
    unhealthy_threshold = 3;
  };
  connection = record {
    max_per_service = 1024;
    idle_timeout_ms = 30000;
    connect_timeout_ms = 5000;
  };
}

abbrev pub any_port : Bytes → ℕ → Bool
any_port address port = ltb 1023 port

started :
    make_strategy config.routing_algorithm (make_pool config.services) 1
    ≡ some (returns (inl (P2c.make 1)))
unfolding make_strategy
started = refl

addressed : Addressed is_valid_ipv4 (make_pool config.services)
unfolding make_pool is_valid_ipv4
addressed = (refl, (refl, tt))

program_serves_example :
    (s : System AnyState) × (start_up any_port 2 (value config) 1 ≡ returns (value s))
    × ((es : List Event)
        → All Readable es
        → length es < size_mod
        → ((t : System AnyState) × (run (any_strategy remainder 5) is_valid_ipv4 s es
              ≡ some (returns t))
            × IsRunning (any_strategy remainder 5) is_valid_ipv4 t)
          ⊎ ((run (any_strategy remainder 5) is_valid_ipv4 s es ≡ none)
              × ¬ IsPrompt (any_strategy remainder 5) is_valid_ipv4))
program_serves_example =
    program_serves any_port 2 1 config is_valid_ipv4 remainder 5 (inl (P2c.make 1)) (omega arith)
      (omega arith) started (ground arith) addressed

start_up-cases_example :
    ((2 < 2) × (start_up any_port 2 (value config) 1 ≡ returns (unexpected usage)))
    ⊎ ((2 ≤ 2) × WithArgument any_port 2 1 (value config))
start_up-cases_example = start_up-cases any_port 2 1 (value config)

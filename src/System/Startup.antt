-- ===== src/System/Startup.antt =====
-- `main` of core/main.cpp, up to the event loop.
use bit_bridge.Prelude.{
  ℕ, Bool, true, ltb, same_text, ◌==◌, if◌then◌else◌, List, [], Bytes, codes, Option, none, some,
  Outcome, returns, throws, system_error, Expected, value, unexpected, ◌⊎◌, inl, inr,
}
use bit_bridge.Model.Balancer.{LoadBalancerConfig, service_count}
use bit_bridge.State.Pool.{ServicePool, make_pool}
use bit_bridge.Routing.Strategy.{RoutingStrategy}
use bit_bridge.Routing.Either.{either_strategy}
use bit_bridge.Routing.Ring.Points.{build_ring}
use bit_bridge.Routing.Ring.Sort.{Point}
use bit_bridge.Routing.Xoshiro.{Xoshiro}
use bit_bridge.Routing.P2c
use bit_bridge.Routing.P2c.{Distribution}
use bit_bridge.Routing.Strategies.{ring_strategy, p2c_strategy}
use bit_bridge.Health.Checker
use bit_bridge.Health.Checker.{HealthChecker, make_checker}
use bit_bridge.Proxy.TcpProxy
use bit_bridge.Proxy.TcpProxy.{TcpProxy}
use bit_bridge.System.{System}

abbrev pub AnyState : Type 0
AnyState = Xoshiro ⊎ List Point

-- The strategy of the program, whichever it is.
abbrev pub any_strategy : Distribution → ℕ → RoutingStrategy
any_strategy dist fuel = either_strategy (p2c_strategy dist fuel) ring_strategy

-- Why `main` returns 1 without an exception.
pub data Refusal : Type 0 where
  usage no_services : Refusal
  not_loaded unknown_algorithm : Bytes → Refusal

abbrev pub of_ring : Outcome (List Point) → Outcome AnyState
of_ring (returns ring) = returns (inr ring)
of_ring (throws x) = throws x

-- `strategyFactory`; `device` is the value of the random device.
unfoldable pub make_strategy : Bytes → ServicePool → ℕ → Option (Outcome AnyState)
make_strategy algorithm pool device =
    if same_text algorithm (codes "p2c")
    then some (returns (inl (P2c.make device)))
    else if same_text algorithm (codes "consistent-hash")
    then some (of_ring (build_ring pool))
    else none

-- The acceptor of a given address and port is made, or its constructor throws.
module _ (can_listen : Bytes → ℕ → Bool) where
  unfoldable pub make_system : LoadBalancerConfig → ServicePool → AnyState → System AnyState
  unfolding TcpProxy.start Checker.start
  make_system config pool st = record {
    proxy = TcpProxy.start (record {
      pool = pool;
      routing = st;
      sessions = [];
      accepting = 0;
      is_open = true;
      connect_timeout_ms = config.connection.connect_timeout_ms;
      idle_timeout_ms = config.connection.idle_timeout_ms;
    });
    checker =
        if config.health_check.enabled
        then some (Checker.start (make_checker pool config.health_check))
        else none;
    signals = true;
  }

  unfoldable pub with_strategy :
      LoadBalancerConfig
      → ServicePool
      → Option (Outcome AnyState)
      → Outcome (Expected Refusal (System AnyState))
  with_strategy config pool none = returns (unexpected (unknown_algorithm config.routing_algorithm))
  with_strategy config pool (some (throws x)) = throws x
  with_strategy config pool (some (returns st)) =
      if can_listen config.listen_address config.listen_port
      then returns (value (make_system config pool st))
      else throws system_error

  unfoldable pub with_config :
      Expected Bytes LoadBalancerConfig → ℕ → Outcome (Expected Refusal (System AnyState))
  with_config (unexpected e) device = returns (unexpected (not_loaded e))
  with_config (value config) device =
      if service_count config == 0
      then returns (unexpected no_services)
      else (let pool = make_pool config.services in
          with_strategy config pool (make_strategy config.routing_algorithm pool device))

  -- `main` with a number of arguments and what loading the configuration gives.
  unfoldable pub start_up :
      ℕ → Expected Bytes LoadBalancerConfig → ℕ → Outcome (Expected Refusal (System AnyState))
  unfolding with_config
  start_up argc loaded device =
      if ltb argc 2 then returns (unexpected usage) else with_config loaded device

-- ===== src/System.antt =====
-- core/main.cpp: the proxy and the health checker in one event loop, over one pool of services. Each
-- of the two models holds the pool; after a turn of one, the other is given the pool that it left. The
-- checks before the loop stand in System/Startup.antt.
pub mod Startup
pub mod Shared
pub mod Runs
pub mod Program
pub mod Starting
pub mod Deployed
use mathlib.Core.Option
use bit_bridge.Prelude.{
  ℕ, Bool, true, false, if◌then◌else◌, List, [], ◌∷◌, Bytes, Option, none, some, Outcome, returns,
  throws,
}
use bit_bridge.State.Pool.{ServicePool}
use bit_bridge.Routing.Strategy.{RoutingStrategy}
use bit_bridge.Health.Checker
use bit_bridge.Health.Checker.{HealthChecker}
use bit_bridge.Proxy.TcpProxy
use bit_bridge.Proxy.TcpProxy.{TcpProxy}

-- `signals` says that the signal handler still waits.
pub record System (St : Type 0) : Type 0 where
  pub proxy : TcpProxy St
  pub checker : Option HealthChecker
  pub signals : Bool

pub data Event : Type 0 where
  of_proxy : TcpProxy.Event → Event
  of_health : Checker.Event → Event
  signal : (ec : Bool) → Event

abbrev pub seen : ServicePool → HealthChecker → HealthChecker
seen pool c = record c { pool = pool }

module _ {St : Type 0} where
  -- The pool as the checker left it.
  unfoldable pub of_checker : System St → HealthChecker → System St
  of_checker s c = record s { checker = some c; proxy = record s.proxy { pool = c.pool } }

  -- The pool as the proxy left it.
  unfoldable pub of_listener : System St → TcpProxy St → System St
  of_listener s q = record s { proxy = q; checker = Option.map (seen q.pool) s.checker }

  -- The handler of SIGINT and SIGTERM.
  unfoldable pub on_signal : System St → Bool → System St
  on_signal s ec =
      if ec
      then s
      else record s { checker = Option.map Checker.stop s.checker; proxy = TcpProxy.stop s.proxy }

  unfoldable pub health_turn : System St → Outcome HealthChecker → Outcome (System St)
  unfolding of_checker
  health_turn s (returns c) = returns (of_checker s c)
  health_turn s (throws x) = throws x

  unfoldable pub proxy_turn :
      System St → Option (Outcome (TcpProxy St)) → Option (Outcome (System St))
  unfolding of_listener
  proxy_turn s none = none
  proxy_turn s (some (throws x)) = some (throws x)
  proxy_turn s (some (returns q)) = some (returns (of_listener s q))

module _ (strategy : RoutingStrategy) (make_address : Bytes → Bool) where
  -- One turn of the event loop; without a checker none of its handlers waits.
  unfoldable pub step : System strategy.State → Event → Option (Outcome (System strategy.State))
  unfolding health_turn proxy_turn on_signal
  step s (of_proxy e) = proxy_turn s (TcpProxy.step strategy make_address s.proxy e)
  step s (of_health e) = elim s.checker [
    | none ↦ some (returns s)
    | some c ↦ some (health_turn s (Checker.step make_address c e))
  ]
  step s (signal ec) =
      some (returns (if s.signals then on_signal (record s { signals = false }) ec else s))

  -- `io_context::run`
  unfoldable pub run : System strategy.State → List Event → Option (Outcome (System strategy.State))
  run s [] = some (returns s)
  run s (e ∷ es) = elim (step s e) [
    | none ↦ none
    | some (throws x) ↦ some (throws x)
    | some (returns t) ↦ run t es
  ]

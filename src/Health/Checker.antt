-- ===== src/Health/Checker.antt =====
-- core/health/HealthChecker.hpp and HealthChecker.cpp. The timer and the sockets are Boost.Asio's: the
-- state holds what was asked of them, and an event hands the error code to one waiting handler. The
-- lines written to the console are left out.
use bit_bridge.Prelude.{
  ℕ, zero, suc, ◌+◌, ◌-◌, ◌||◌, ◌&&◌, ltb, leb, if◌then◌else◌, Bool, true, false, List, [], ◌∷◌,
  ◌++◌, none, some, Bytes, get_elem?, Outcome, returns, throws, system_error, ◌>>=◌,
}
use bit_bridge.Model.HealthCheck.{HealthCheckConfig}
use bit_bridge.Model.Balancer.{erase_at}
use bit_bridge.State.Service.{ServiceState, set_healthy, increment_failures, reset_failures}
use bit_bridge.State.Pool.{ServicePool, pool_size, get_service, update_service}

-- A probe under way: its service, and whether the timeout closed its socket.
pub record Probe : Type 0 where
  pub index : ℕ
  pub closed : Bool

-- `waits` counts the waits of `m_timer` whose handler has not run.
pub record HealthChecker : Type 0 where
  pub pool : ServicePool
  pub config : HealthCheckConfig
  pub waits : ℕ
  pub stopped : Bool
  pub probes : List Probe

unfoldable pub make_checker : ServicePool → HealthCheckConfig → HealthChecker
make_checker pool config = record {
  pool = pool;
  config = config;
  waits = 0;
  stopped = false;
  probes = [];
}

-- The flag is `ec`: set where the handler is given an error.
unfoldable pub probed_state : ℕ → Bool → ServiceState → ServiceState
unfolding set_healthy increment_failures reset_failures
probed_state threshold ec s =
    if ec
    then (let failed = increment_failures s in
        if leb threshold failed.consecutive_failures && failed.healthy
        then set_healthy failed false
        else failed)
    else set_healthy (reset_failures s) true

-- `OnProbeResult`: closing the socket changes nothing else, since its exception is caught.
unfoldable pub on_probe_result : HealthChecker → ℕ → Bool → Outcome HealthChecker
on_probe_result c index ec = do
  pool ← update_service c.pool index (probed_state c.config.unhealthy_threshold ec)
  returns (record c { pool = pool })

unfoldable pub schedule_next_round : HealthChecker → HealthChecker
schedule_next_round c = if c.stopped then c else record c { waits = c.waits + 1 }

unfoldable pub start : HealthChecker → HealthChecker
start c = schedule_next_round c

unfoldable pub stop : HealthChecker → HealthChecker
stop c = record c { stopped = true }

-- What the event loop may run next: the handler of a timer wait, the handler of a probe's timeout, the
-- handler of a probe's connect, or `Stop` from the signal handler.
pub data Event : Type 0 where
  timer : (ec : Bool) → Event
  probe_timeout : (k : ℕ) (ec : Bool) → Event
  probe_done : (k : ℕ) (ec : Bool) → Event
  stop_call : Event

abbrev pub close_at : ℕ → List Probe → List Probe
close_at k [] = []
close_at zero (p ∷ ps) = record p { closed = true } ∷ ps
close_at (suc k) (p ∷ ps) = p ∷ close_at k ps

-- `asio::ip::make_address` accepts a text or throws.
module _ (make_address : Bytes → Bool) where
  unfoldable pub probe_one : HealthChecker → ℕ → Outcome HealthChecker
  probe_one c index = do
    s ← get_service c.pool index
    if make_address s.node.ip
        then returns
            (record c { probes = c.probes ++ record { index = index; closed = false } ∷ [] })
        else throws system_error

  -- The loop of `ProbeAll`, from `index` on, with the rounds that are left.
  unfoldable pub probe_from : HealthChecker → ℕ → ℕ → Outcome HealthChecker
  probe_from c index zero = returns c
  probe_from c index (suc rounds) = do c' ← probe_one c index; probe_from c' (index + 1) rounds

  unfoldable pub probe_all : HealthChecker → Outcome HealthChecker
  probe_all c = probe_from c 0 (pool_size c.pool)

  -- The handler that `ScheduleNextRound` passes to the timer.
  unfoldable pub on_timer : HealthChecker → Bool → Outcome HealthChecker
  on_timer c ec =
      if ec || c.stopped then returns c else (do c' ← probe_all c; returns (schedule_next_round c'))

  -- One turn of the event loop. An event that nothing waits for changes nothing.
  unfoldable pub step : HealthChecker → Event → Outcome HealthChecker
  step c (timer ec) =
      if ltb 0 c.waits then on_timer (record c { waits = c.waits - 1 }) ec else returns c
  step c (probe_timeout k ec) =
      returns (if ec then c else record c { probes = close_at k c.probes })
  step c (probe_done k ec) = elim (get_elem? c.probes k) [
    | none ↦ returns c
    | some p ↦ on_probe_result (record c { probes = erase_at k c.probes }) p.index ec
  ]
  step c stop_call = returns (stop c)

  unfoldable pub run : HealthChecker → List Event → Outcome HealthChecker
  run c [] = returns c
  run c (e ∷ es) = do c' ← step c e; run c' es

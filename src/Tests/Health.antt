-- ===== src/Tests/Health.antt =====
-- The health checker of core/health on a small pool.
use bit_bridge.Health.Probes.{Inside}
use bit_bridge.Prelude.{
  ◌⊎◌, ℕ, zero, suc, ◌%◌, ◌≡◌, refl, List, [], ◌∷◌, ◌++◌, Bool, true, false, get_elem?, some,
  returns, throws, system_error, length, arith,
}
use bit_bridge.Model.Node.{is_valid_ipv4}
use bit_bridge.Model.HealthCheck.{defaults}
use bit_bridge.State.Service.{ServiceState, size_mod, new}
use bit_bridge.Health.Checker.{
  HealthChecker, Event, timer, probe_timeout, probe_done, make_checker, start, step, run,
}
use bit_bridge.Health.Threshold.{probed_history, probed_history_lem}
use bit_bridge.Health.Rounds.{Accepted, round_probes, step-timer}
use bit_bridge.Health.Waits.{left_after, waits_left, probes_left}
use bit_bridge.Health.Runs.{rounds_go_on, run_stopped}
use bit_bridge.Tests.{state_of, node_a, node_b, two_services}

abbrev three_failures : List Bool
three_failures = true ∷ false ∷ true ∷ true ∷ true ∷ []

probed_history_lem_example :
    ((probed_history 3 three_failures (new node_a)).healthy ≡ false)
    × ((probed_history 3 three_failures (new node_a)).consecutive_failures ≡ 3 % size_mod)
probed_history_lem_example = probed_history_lem 3 three_failures node_a (omega arith)

-- Two services, with two probes under way.
abbrev pub checking : HealthChecker
checking = record {
  pool = two_services;
  config = record {
    enabled = true;
    interval_ms = 5000;
    timeout_ms = 2000;
    unhealthy_threshold = 1;
  };
  waits = 1;
  stopped = false;
  probes = record { index = 0; closed = false } ∷ record { index = 1; closed = false } ∷ [];
}

pub two_services-Accepted : Accepted is_valid_ipv4 two_services
unfolding is_valid_ipv4
two_services-Accepted zero s e = let same : state_of node_a 0 true ≡ s = cc in rw (← same) refl
two_services-Accepted (suc zero) s e =
    let same : state_of node_b 0 true ≡ s = cc in rw (← same) refl
two_services-Accepted (suc (suc j)) s e = absurd (cc)

step-timer_example :
    (Accepted is_valid_ipv4 checking.pool
      × (step is_valid_ipv4 checking (timer false)
          ≡ returns
              (record checking { probes = checking.probes ++ round_probes is_valid_ipv4 0 2 })))
    ⊎ ((j : ℕ) × (s : ServiceState) × (get_elem? checking.pool j ≡ some s)
        × (is_valid_ipv4 s.node.ip ≡ false)
        × (run is_valid_ipv4 checking (timer false ∷ timer false ∷ []) ≡ throws system_error))
step-timer_example = step-timer is_valid_ipv4 checking (timer false ∷ []) (omega arith) refl

-- A round, both results, a further round, and `Stop`.
abbrev turns : List Event
turns =
    timer false ∷ probe_done 1 true ∷ probe_timeout 0 false ∷ probe_done 0 false ∷ timer false ∷ []

rounds_go_on_example :
    (c : HealthChecker) × (run is_valid_ipv4 (start (make_checker two_services defaults)) turns
      ≡ returns c)
    × ((c.stopped ≡ true) ⊎ (c.waits ≡ 1))
    × Inside c.pool c.probes
rounds_go_on_example =
    rounds_go_on is_valid_ipv4 two_services defaults turns two_services-Accepted (
      (λ e. absurd (cc)),
      ((λ e. absurd (cc)), ((λ e. absurd (cc)), ((λ e. absurd (cc)), ((λ e. absurd (cc)), tt)))),
    )

abbrev halted : HealthChecker
halted = record checking { stopped = true }

run_stopped_example :
    (c' : HealthChecker) × (run is_valid_ipv4 halted turns ≡ returns c')
    × (c'.stopped ≡ true)
    × (c'.waits ≡ left_after waits_left 1 turns)
    × (length c'.probes ≡ left_after probes_left 2 turns)
run_stopped_example =
    run_stopped is_valid_ipv4 halted turns
      (record { accepted = two_services-Accepted; inside = (omega arith, (omega arith, tt)) }) refl

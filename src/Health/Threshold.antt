-- ===== src/Health/Threshold.antt =====
-- When `OnProbeResult` of core/health/HealthChecker.cpp calls a service unhealthy.
use bit_bridge.Prelude.{
  ℕ, ◌+◌, ◌≤◌, ◌<◌, ◌%◌, ◌^◌, ◌≡◌, ◌≢◌, ◌==◌, throws, out_of_range, ◌⊎◌, inl, inr, get_elem?-ge,
  refl, Bool, true, false, ltb, List, [], ◌∷◌, get_elem?, set, some, returns, arith, if◌then◌else◌,
  dec_lt, get_elem?-lt, get_elem?-set_self, get_elem?-set_ne, length-set,
}
use bit_bridge.Model.Node.{ServiceNode}
use bit_bridge.State.Service.{
  ServiceState, size_mod, new, set_healthy, increment_failures, reset_failures,
}
use bit_bridge.State.Pool.{ServicePool, pool_size}
use bit_bridge.Health.Checker.{HealthChecker, probed_state, on_probe_result}

-- The results of a service's probes, oldest first; `true` is a failure.
abbrev pub probed_history : ℕ → List Bool → ServiceState → ServiceState
probed_history threshold [] s = s
probed_history threshold (ec ∷ ecs) s = probed_history threshold ecs (probed_state threshold ec s)

-- How many failures there are at the end of a history, behind `n` failures.
abbrev pub failures_at_end : ℕ → List Bool → ℕ
failures_at_end n [] = n
failures_at_end n (true ∷ ecs) = failures_at_end (n + 1) ecs
failures_at_end n (false ∷ ecs) = failures_at_end 0 ecs

-- The state of a service with `n` failures at the end of its history.
record After (threshold n : ℕ) (s : ServiceState) : Type 0 where
  counted : s.consecutive_failures ≡ n % size_mod
  judged : s.healthy ≡ (if n == 0 then true else ltb n threshold)

probed_state-failed :
    (threshold n : ℕ) (s : ServiceState)
    → threshold < 2 ^ 32
    → After threshold n s
    → After threshold (n + 1) (probed_state threshold true s)
unfolding probed_state set_healthy increment_failures
probed_state-failed threshold n s h a = ground arith

probed_state-passed :
    (threshold : ℕ) (s : ServiceState) → After threshold 0 (probed_state threshold false s)
unfolding probed_state set_healthy reset_failures
probed_state-passed threshold s = ground arith

probed_history-After :
    (threshold n : ℕ) (ecs : List Bool) (s : ServiceState)
    → threshold < 2 ^ 32
    → After threshold n s
    → After threshold (failures_at_end n ecs) (probed_history threshold ecs s)
probed_history-After threshold n [] s h a = a
probed_history-After threshold n (true ∷ ecs) s h a =
    probed_history-After threshold (n + 1) ecs _ h (probed_state-failed threshold n s h a)
probed_history-After threshold n (false ∷ ecs) s h a =
    probed_history-After threshold 0 ecs _ h (probed_state-passed threshold s)

-- With a threshold of 32 bits, after any history of probes, however long, a service counts as healthy exactly when its last probe
-- passed (or there was none) or fewer than the threshold have failed since the last one that passed; and
-- the counter is the number of those failures, modulo 2^64.
pub probed_history_lem :
    (threshold : ℕ) (ecs : List Bool) (node : ServiceNode)
    → threshold < 2 ^ 32
    → let n = failures_at_end 0 ecs in
      let s = probed_history threshold ecs (new node) in
      (s.healthy ≡ (if n == 0 then true else ltb n threshold))
      × (s.consecutive_failures ≡ n % size_mod)
unfolding new
probed_history_lem threshold ecs node h =
    let a =
      probed_history-After threshold 0 ecs (new node) h
        (record { counted = refl; judged = refl }) in
    (a.judged, a.counted)

probed_state-keeps :
    (threshold : ℕ) (ec : Bool) (s : ServiceState)
    → ((probed_state threshold ec s).active_connections ≡ s.active_connections)
      × ((probed_state threshold ec s).node ≡ s.node)
unfolding probed_state set_healthy increment_failures reset_failures
probed_state-keeps threshold ec s = ground arith

module _ (c : HealthChecker) (index : ℕ) (ec : Bool) where
  -- What a result does.
  abbrev pub Judged : Type 0
  Judged =
      ((s : ServiceState) × (pool' : ServicePool) × (get_elem? c.pool index ≡ some s)
        × (on_probe_result c index ec ≡ returns (record c { pool = pool' }))
        × (get_elem? pool' index ≡ some (probed_state c.config.unhealthy_threshold ec s))
        × ((j : ℕ) → index ≢ j → get_elem? pool' j ≡ get_elem? c.pool j)
        × (pool_size pool' ≡ pool_size c.pool)
        × ((probed_state c.config.unhealthy_threshold ec s).active_connections
            ≡ s.active_connections)
        × ((probed_state c.config.unhealthy_threshold ec s).node ≡ s.node))
      ⊎ ((pool_size c.pool ≤ index) × (on_probe_result c index ec ≡ throws out_of_range))

  -- `OnProbeResult` for a service of the pool returns, judges that service and touches nothing else:
  -- no other service, not the number of services, not the service's node or its connections. Outside the
  -- pool it throws `out_of_range`.
  pub on_probe_result_lem : Judged
  on_probe_result_lem = elim (dec_lt index (pool_size c.pool)) [
    | yes inside ↦
        let (s, e) = get_elem?-lt c.pool index inside in
        let t : ServiceState = probed_state c.config.unhealthy_threshold ec s in
        inl (
          s,
          set c.pool index t,
          e,
          unfold on_probe_result in (ground arith),
          get_elem?-set_self c.pool index t inside,
          λ j ne. get_elem?-set_ne c.pool index j t ne,
          length-set c.pool index t,
          (probed_state-keeps _ ec s).0,
          (probed_state-keeps _ ec s).1,
        )
    | no outside ↦
        inr (omega arith, unfold on_probe_result in (ground (arith, get_elem?-ge c.pool index)))
  ]

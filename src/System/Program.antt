-- ===== src/System/Program.antt =====
-- The program of core/main.cpp from its start.
use bit_bridge.Proxy.TcpProxy.Addresses.{Addressed}
use bit_bridge.System.Shared.{IsRunning, Addressed-Accepted, mapped}
use bit_bridge.Prelude.{
  same_text, ℕ, suc, ◌≤◌, ◌<◌, ◌≡◌, refl, sym, ap, ◌∙◌, Bool, true, Bool-cases, List, [], ◌∷◌,
  Bytes, codes, length, get_elem?, All, none, some, Outcome, returns, throws, hash_collision, value,
  arith, ◌⊎◌, inl, inr,
}
use bit_bridge.Model.Node.{ServiceNode}
use bit_bridge.Model.Balancer.{LoadBalancerConfig, service_count}
use bit_bridge.Model.HealthCheck.{HealthCheckConfig}
use bit_bridge.State.Service
use bit_bridge.State.Service.{ServiceState, size_mod}
use bit_bridge.State.Pool.{ServicePool, pool_size, make_pool, make_pool-get_elem?}
use bit_bridge.Routing.Ring.Points.{build_ring}
use bit_bridge.Routing.Ring.Sort.{Point}
use bit_bridge.Routing.Ring.Choice.{build_ring-Fits}
use bit_bridge.Routing.P2c
use bit_bridge.Routing.P2c.{Distribution}
use bit_bridge.Health.Checker
use bit_bridge.Health.Checker.{HealthChecker, make_checker}
use bit_bridge.Health.Runs.{start-IsSound}
use bit_bridge.Proxy.TcpProxy.Counts.{Counted}
use bit_bridge.Proxy.TcpProxy.Runs.{IsPrompt}
use bit_bridge.System.{System, Event, run}
use bit_bridge.System.Runs.{Readable, system_serves}
use bit_bridge.System.Startup.{
  AnyState, any_strategy, of_ring, make_strategy, make_system, with_strategy, start_up,
}

new-active : (node : ServiceNode) → (Service.new node).active_connections ≡ 0
unfolding Service.new
new-active node = refl

make_pool-Counted : (nodes : List ServiceNode) → Counted (make_pool nodes) []
make_pool-Counted nodes = record {
  counts = λ i b e.
      let (node, _, same) = mapped (get_elem? nodes i) b (sym (make_pool-get_elem? nodes i) ∙ e) in
      ap (λ x. x.active_connections) same ∙ new-active node;
  backends = tt;
  held = tt;
}

of_ring-returns :
    (o : Outcome (List Point)) (st : AnyState)
    → of_ring o ≡ returns st
    → (ring : List Point) × (o ≡ returns ring) × (st ≡ inr ring)
of_ring-returns (returns ring) st e = (ring, refl, cc)
of_ring-returns (throws x) st e = absurd (cc)

start-pool :
    (pool : ServicePool) (config : HealthCheckConfig)
    → (Checker.start (make_checker pool config)).pool ≡ pool
unfolding Checker.start make_checker Checker.schedule_next_round
start-pool pool config = refl

length-make_pool : (nodes : List ServiceNode) → length (make_pool nodes) ≡ length nodes
unfolding make_pool
length-make_pool [] = refl
length-make_pool (node ∷ nodes) = ap suc (length-make_pool nodes)

module _ (dist : Distribution) (fuel : ℕ) where
  make_strategy-Fits :
      (algorithm : Bytes) (pool : ServicePool) (device : ℕ) (st : AnyState)
      → make_strategy algorithm pool device ≡ some (returns st)
      → (any_strategy dist fuel).Fits st (pool_size pool)
  unfolding make_strategy
  make_strategy-Fits algorithm pool device st e =
      elim (Bool-cases (same_text algorithm (codes "p2c"))) [
        | inl p2c ↦ let same : inl (P2c.make device) ≡ st = ground arith in rw (← same) tt
        | inr other ↦ elim (Bool-cases (same_text algorithm (codes "consistent-hash"))) [
          | inl hash ↦
              let made : of_ring (build_ring pool) ≡ returns st = ground arith in
              let (ring, built, same) = of_ring-returns (build_ring pool) st made in
              rw same (build_ring-Fits pool built)
          | inr neither ↦ absurd (ground arith)
        ]
      ]

-- Any turns of the event loop return, with the counter of each service at the number of its live sessions,
-- or a call of the strategy has not returned, and then the strategy does not always answer.
abbrev pub KeepsRunning : (Bytes → Bool) → Distribution → ℕ → System AnyState → Type 0
KeepsRunning make_address dist fuel s =
    (es : List Event)
    → All Readable es
    → length es < size_mod
    → ((t : System AnyState) × (run (any_strategy dist fuel) make_address s es ≡ some (returns t))
        × IsRunning (any_strategy dist fuel) make_address t)
      ⊎ ((run (any_strategy dist fuel) make_address s es ≡ none)
          × ¬ IsPrompt (any_strategy dist fuel) make_address)

module _ (can_listen : Bytes → ℕ → Bool) (argc device : ℕ) (config : LoadBalancerConfig) where
  abbrev pub services : ServicePool
  services = make_pool config.services

  hash_strategy :
      config.routing_algorithm ≡ codes "consistent-hash"
      → make_strategy config.routing_algorithm services device
        ≡ some (of_ring (build_ring services))
  unfolding make_strategy
  hash_strategy algorithm = rw algorithm refl

  pub with_hash :
      (i : ℕ)
      → 2 ≤ argc
      → 0 < length config.services
      → config.routing_algorithm ≡ codes "consistent-hash"
      → build_ring services ≡ throws (hash_collision i)
      → start_up can_listen argc (value config) device ≡ throws (hash_collision i)
  unfolding start_up with_strategy service_count
  with_hash i args some_service algorithm collides =
      ground (arith, hash_strategy algorithm ∙ ap (λ o. some (of_ring o)) collides)

  pub start_up_started :
      (st : AnyState)
      → 2 ≤ argc
      → 0 < length config.services
      → make_strategy config.routing_algorithm services device ≡ some (returns st)
      → can_listen config.listen_address config.listen_port ≡ true
      → start_up can_listen argc (value config) device
        ≡ returns (value (make_system can_listen config services st))
  unfolding start_up with_strategy service_count
  start_up_started st args some_service made listens = ground arith

  module _ (make_address : Bytes → Bool) (dist : Distribution) (fuel : ℕ) where
    make_system-IsRunning :
        (st : AnyState)
        → (any_strategy dist fuel).Fits st (pool_size services)
        → Addressed make_address services
        → IsRunning
            (any_strategy dist fuel)
            make_address
            (make_system can_listen config services st)
    unfolding make_system
    make_system-IsRunning st fits h = record {
      serving = record { counted = make_pool-Counted config.services; fits = fits; addressed = h };
      checked = λ c e. elim (Bool-cases config.health_check.enabled) [
        | inr off ↦ absurd (ground arith)
        | inl on ↦
            let same : Checker.start (make_checker services config.health_check) ≡ c =
              ground arith in
            rw (← same) (
              start-pool services config.health_check,
              start-IsSound make_address services config.health_check
                  (Addressed-Accepted make_address services h),
            )
      ];
    }

    -- The program from its start. With an argument, a configuration that is loaded and has services, a
    -- strategy that is made, an acceptor that can listen and services whose addresses are IP addresses,
    -- `main` reaches its event loop. Any turns of it, fewer than 2 ^ 64 and with clients whose addresses can be
    -- had, then return with the counter of each service at the number of its live sessions, or a call of the
    -- strategy has not returned, and then the strategy does not always answer.
    pub program_serves :
        (st : AnyState)
        → 2 ≤ argc
        → 0 < length config.services
        → make_strategy config.routing_algorithm services device ≡ some (returns st)
        → can_listen config.listen_address config.listen_port ≡ true
        → Addressed make_address services
        → (s : System AnyState) × (start_up can_listen argc (value config) device
            ≡ returns (value s))
          × KeepsRunning make_address dist fuel s
    program_serves st args some_service made listens h =
        let fits = make_strategy-Fits dist fuel config.routing_algorithm services device st made in
        (
          make_system can_listen config services st,
          start_up_started st args some_service made listens,
          λ es r small.
              system_serves (any_strategy dist fuel) make_address _ es r
                (unfold make_system in (omega arith)) (make_system-IsRunning st fits h),
        )

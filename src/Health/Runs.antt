-- ===== src/Health/Runs.antt =====
-- core/health/HealthChecker.cpp over any turns of the event loop.
use bit_bridge.Prelude.{
  ◌⊎◌, inl, inr, Bool-cases, true, ◌>>=◌, ◌||◌, ℕ, ◌-◌, ◌<◌, ◌≡◌, ◌≢◌, refl, sym, ap, ◌∙◌,
  Option-cases, ℕ_discrete, none, some, Bool, true, false, ltb, List, [], ◌∷◌, ◌++◌, get_elem?,
  Outcome, returns, arith, length, All, All-append, Bytes, inl, inr, Bool-cases,
}
use bit_bridge.Model.HealthCheck.{HealthCheckConfig}
use bit_bridge.Model.Balancer.{erase_at}
use bit_bridge.State.Pool.{ServicePool, pool_size}
use bit_bridge.Health.Checker.{
  HealthChecker, Probe, Event, probed_state, timer, probe_timeout, probe_done, stop_call, close_at,
  on_probe_result, schedule_next_round, start, stop, make_checker, probe_all, on_timer, step, run,
}
use bit_bridge.Health.Threshold.{on_probe_result_lem}
use bit_bridge.Health.Rounds.{Accepted, round_probes, probe_all-Accepted}
use bit_bridge.Health.Waits.{left_after, waits_left, probes_left, stopped-run, waits-run}
use bit_bridge.Health.Probes.{
  Inside, Inside-round_probes, Inside-close_at, Inside-erase_at, Inside-get_elem?, Inside-size,
  SameLoad, SameLoad-refl,
}

module _ (make_address : Bytes → Bool) where
  -- Asio accepts every address, and the probes are of services of the pool.
  pub record IsSound (c : HealthChecker) : Type 0 where
    pub accepted : Accepted make_address c.pool
    pub inside : Inside c.pool c.probes

  -- A call that returns a sound checker, and leaves the services of a pool their nodes and connections.
  abbrev pub Returns : ServicePool → Outcome HealthChecker → Type 0
  Returns pool o = (c : HealthChecker) × (o ≡ returns c) × IsSound c × SameLoad pool c.pool

  on_probe_result-Returns :
      (c : HealthChecker) (index : ℕ) (ec : Bool)
      → index < pool_size c.pool
      → IsSound c
      → Returns c.pool (on_probe_result c index ec)
  on_probe_result-Returns c index ec h v = elim (on_probe_result_lem c index ec) [
    | inr (outside, _) ↦ absurd (omega arith)
    | inl (s, pool', was, done, now, others, size, load, node) ↦ (
      record c { pool = pool' },
      done,
      record {
        accepted = λ j t e. elim (ℕ_discrete index j) [
          | yes same ↦
              let mine : t ≡ probed_state c.config.unhealthy_threshold ec s = ground arith in
              ap (λ x. make_address x.node.ip) mine
              ∙ ap (λ n. make_address n.ip) node
              ∙ v.accepted index s was
          | no other ↦ v.accepted j t (sym (others j other) ∙ e)
        ];
        inside = Inside-size c.pool pool' c.probes size v.inside;
      },
      record {
        size = size;
        same = λ j t e. elim (ℕ_discrete index j) [
          | yes here ↦
              let mine : t ≡ probed_state c.config.unhealthy_threshold ec s = ground arith in
              (
                s,
                sym (ap (get_elem? c.pool) here) ∙ was,
                ap (λ x. x.active_connections) mine ∙ load,
                ap (λ x. x.node) mine ∙ node,
              )
          | no other ↦ (t, sym (others j other) ∙ e, refl, refl)
        ];
      },
    )
  ]

  schedule_next_round-rest :
      (c : HealthChecker)
      → ((schedule_next_round c).pool ≡ c.pool) × ((schedule_next_round c).probes ≡ c.probes)
  unfolding schedule_next_round
  schedule_next_round-rest c = ground arith

  schedule_next_round-IsSound : (c : HealthChecker) → IsSound c → IsSound (schedule_next_round c)
  schedule_next_round-IsSound c v =
      let (pool, probes) = schedule_next_round-rest c in
      record { accepted = rw pool v.accepted; inside = rw (pool, probes) v.inside }

  on_timer-skips :
      (c : HealthChecker) (ec : Bool)
      → (ec || c.stopped) ≡ true
      → on_timer make_address c ec ≡ returns c
  unfolding on_timer
  on_timer-skips c ec h = ground arith

  on_timer-goes :
      (c d : HealthChecker) (ec : Bool)
      → (ec || c.stopped) ≡ false
      → probe_all make_address c ≡ returns d
      → on_timer make_address c ec ≡ returns (schedule_next_round d)
  unfolding on_timer
  on_timer-goes c d ec h e = ground arith

  on_timer-Returns :
      (c : HealthChecker) (ec : Bool) → IsSound c → Returns c.pool (on_timer make_address c ec)
  on_timer-Returns c ec v = elim (Bool-cases (ec || c.stopped)) [
    | inl skip ↦ (c, on_timer-skips c ec skip, v, SameLoad-refl c.pool)
    | inr go ↦
        let ps = c.probes ++ round_probes make_address 0 (pool_size c.pool) in
        (
          schedule_next_round (record c { probes = ps }),
          on_timer-goes c (record c { probes = ps }) ec go
              (probe_all-Accepted make_address c v.accepted),
          schedule_next_round-IsSound (record c { probes = ps })
              (record {
                accepted = v.accepted;
                inside =
                    All-append _ c.probes _ v.inside
                      (Inside-round_probes make_address c.pool 0 (pool_size c.pool) (omega arith));
              }),
          rw (schedule_next_round-rest (record c { probes = ps })).0 (SameLoad-refl c.pool),
        )
  ]

  pub stop-IsSound : (c : HealthChecker) → IsSound c → IsSound (stop c)
  unfolding stop
  stop-IsSound c v = record { accepted = v.accepted; inside = v.inside }

  step-probe_none :
      (c : HealthChecker) (k : ℕ) (ec : Bool)
      → get_elem? c.probes k ≡ none
      → step make_address c (probe_done k ec) ≡ returns c
  unfolding step
  step-probe_none c k ec h = ground arith

  step-probe_some :
      (c : HealthChecker) (k : ℕ) (ec : Bool) (p : Probe)
      → get_elem? c.probes k ≡ some p
      → step make_address c (probe_done k ec)
        ≡ on_probe_result (record c { probes = erase_at k c.probes }) p.index ec
  unfolding step
  step-probe_some c k ec p h = ground arith

  pub step-Returns :
      (c : HealthChecker) (e : Event) → IsSound c → Returns c.pool (step make_address c e)
  unfolding step
  step-Returns c (timer ec) v = elim (Bool-cases (ltb 0 c.waits)) [
    | inl w ↦ rw w (
        on_timer-Returns (record c { waits = c.waits - 1 }) ec
          (record { accepted = v.accepted; inside = v.inside }))
    | inr w ↦ rw w (c, refl, v, SameLoad-refl c.pool)
  ]
  step-Returns c (probe_timeout k ec) v = elim (Bool-cases ec) [
    | inl f ↦ rw f (c, refl, v, SameLoad-refl c.pool)
    | inr f ↦ rw f (
      record c { probes = close_at k c.probes },
      refl,
      record { accepted = v.accepted; inside = Inside-close_at c.pool k c.probes v.inside },
      SameLoad-refl c.pool,
    )
  ]
  step-Returns c (probe_done k ec) v = elim (Option-cases (get_elem? c.probes k)) [
    | inl e ↦ (c, step-probe_none c k ec e, v, SameLoad-refl c.pool)
    | inr (p, e) ↦
        let (d, done, vd, same) =
          on_probe_result-Returns (record c { probes = erase_at k c.probes }) p.index ec
            (Inside-get_elem? c.pool c.probes k v.inside e)
            (record {
              accepted = v.accepted;
              inside = Inside-erase_at c.pool k c.probes v.inside;
            }) in
        (d, step-probe_some c k ec p e ∙ done, vd, same)
  ]
  step-Returns c stop_call v =
      (stop c, refl, stop-IsSound c v, unfold stop in (SameLoad-refl c.pool))

  run-Returns :
      (c : HealthChecker) (es : List Event)
      → IsSound c
      → (c' : HealthChecker) × (run make_address c es ≡ returns c') × IsSound c'
  unfolding run
  run-Returns c [] v = (c, refl, v)
  run-Returns c (e ∷ es) v =
      let (d, first, vd, _) = step-Returns c e v in
      let (c', rest, vc) = run-Returns d es vd in
      (c', ap (λ o. o >>= λ x. run make_address x es) first ∙ rest, vc)

  pub start-IsSound :
      (pool : ServicePool) (config : HealthCheckConfig)
      → Accepted make_address pool
      → IsSound (start (make_checker pool config))
  unfolding start make_checker schedule_next_round
  start-IsSound pool config h = record { accepted = h; inside = tt }

  -- The rounds go on. Where Asio accepts the address of every service, the started checker never throws:
  -- any turns of the event loop in which no wait of the timer failed return. Then `Stop` was called or
  -- exactly one wait of the timer stands open, and every probe under way is of a service of the pool.
  pub rounds_go_on :
      (pool : ServicePool) (config : HealthCheckConfig) (es : List Event)
      → Accepted make_address pool
      → All (λ e. e ≢ timer true) es
      → (c : HealthChecker) × (run make_address (start (make_checker pool config)) es ≡ returns c)
        × ((c.stopped ≡ true) ⊎ (c.waits ≡ 1))
        × Inside c.pool c.probes
  rounds_go_on pool config es h ok =
      let (c, ran, v) =
        run-Returns (start (make_checker pool config)) es (start-IsSound pool config h) in
      (
        c,
        ran,
        elim (Bool-cases c.stopped) [
          | inl over ↦ inl over
          | inr on ↦ inr (waits-run make_address pool config c es ok ran on)
        ],
        v.inside,
      )

  -- After `Stop` the checker only ends what waits. Where Asio accepts every address and the probes under way are of
  -- services of the pool, any turns of a stopped checker return and leave it stopped. Each turn of the timer takes
  -- one of its waits away, as long as there is one; each result of one of the probes under way makes their number
  -- one less; and nothing adds a wait or a probe.
  pub run_stopped :
      (c : HealthChecker) (es : List Event)
      → IsSound c
      → c.stopped ≡ true
      → (c' : HealthChecker) × (run make_address c es ≡ returns c')
        × (c'.stopped ≡ true)
        × (c'.waits ≡ left_after waits_left c.waits es)
        × (length c'.probes ≡ left_after probes_left (length c.probes) es)
  run_stopped c es v h =
      let (c', ran, _) = run-Returns c es v in
      let (s, w, p) = stopped-run make_address c c' es h ran in (c', ran, s, w, p)

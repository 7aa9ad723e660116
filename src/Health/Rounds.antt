-- ===== src/Health/Rounds.antt =====
-- One round of core/health/HealthChecker.cpp.
use mathlib.Core.List.{append-nil, append_assoc}
use bit_bridge.Prelude.{
  ◌⊎◌, inl, inr, Bool-cases, zero, suc, refl, List, [], ◌∷◌, ℕ_discrete, lt-get_elem?, get_elem?-lt,
  ℕ, zero, suc, ◌+◌, ◌≤◌, ◌<◌, ◌≡◌, ap, ◌∙◌, Bool, true, false, List, [], ◌∷◌, ◌++◌, get_elem?, ◌-◌,
  ◌>>=◌, some, returns, throws, system_error, arith, Bytes, inl, inr, Bool-cases,
}
use bit_bridge.State.Service.{ServiceState}
use bit_bridge.State.Pool.{ServicePool, pool_size}
use bit_bridge.Health.Checker.{
  HealthChecker, Probe, Event, timer, probe_one, probe_from, probe_all, schedule_next_round,
  on_timer, step, run,
}

module _ (make_address : Bytes → Bool) where
  -- The probes that one round adds.
  abbrev pub round_probes : ℕ → ℕ → List Probe
  round_probes index zero = []
  round_probes index (suc rounds) =
      record { index = index; closed = false } ∷ round_probes (index + 1) rounds

  probe_one-accepted :
      (c : HealthChecker) (index : ℕ) (s : ServiceState)
      → get_elem? c.pool index ≡ some s
      → make_address s.node.ip ≡ true
      → probe_one make_address c index
        ≡ returns (record c { probes = c.probes ++ record { index = index; closed = false } ∷ [] })
  unfolding probe_one
  probe_one-accepted c index s e h = ground arith

  probe_one-refused :
      (c : HealthChecker) (index : ℕ) (s : ServiceState)
      → get_elem? c.pool index ≡ some s
      → make_address s.node.ip ≡ false
      → probe_one make_address c index ≡ throws system_error
  unfolding probe_one
  probe_one-refused c index s e h = ground arith

  abbrev pub Accepted : ServicePool → Type 0
  Accepted pool =
      (j : ℕ) (s : ServiceState) → get_elem? pool j ≡ some s → make_address s.node.ip ≡ true

  probe_from-Accepted :
      (c : HealthChecker) (index rounds : ℕ)
      → Accepted c.pool
      → index + rounds ≤ pool_size c.pool
      → probe_from make_address c index rounds
        ≡ returns (record c { probes = c.probes ++ round_probes index rounds })
  unfolding probe_from
  probe_from-Accepted c index zero h b = ground (arith, append-nil c.probes)
  probe_from-Accepted c index (suc rounds) h b =
      let (s, e) = get_elem?-lt c.pool index (omega arith) in
      let added : List Probe = c.probes ++ record { index = index; closed = false } ∷ [] in
      rw (probe_one-accepted c index s e (h index s e)) (
        probe_from-Accepted (record c { probes = added }) (index + 1) rounds h (omega arith)
        ∙ ap (λ ps. returns (record c { probes = ps })) (append_assoc c.probes _ _))

  probe_from-refused :
      (c : HealthChecker) (index rounds j : ℕ) (s : ServiceState)
      → get_elem? c.pool j ≡ some s
      → make_address s.node.ip ≡ false
      → index ≤ j
      → j < index + rounds
      → index + rounds ≤ pool_size c.pool
      → probe_from make_address c index rounds ≡ throws system_error
  unfolding probe_from
  probe_from-refused c index zero j s e h lo hi b = absurd (omega arith)
  probe_from-refused c index (suc rounds) j s e h lo hi b = elim (ℕ_discrete index j) [
    | yes same ↦ rw (probe_one-refused c index s (ap (get_elem? c.pool) same ∙ e) h)
    | no other ↦
        let (t, f) = get_elem?-lt c.pool index (omega arith) in
        elim (Bool-cases (make_address t.node.ip)) [
          | inr refused ↦ rw (probe_one-refused c index t f refused)
          | inl accepted ↦ rw (probe_one-accepted c index t f accepted) (
              probe_from-refused _ (index + 1) rounds j s e h (omega arith) (omega arith)
                (omega arith))
        ]
  ]

  Accepted-cons :
      (s : ServiceState) (pool : ServicePool)
      → make_address s.node.ip ≡ true
      → Accepted pool
      → Accepted (s ∷ pool)
  Accepted-cons s pool taken all zero t e = let same : s ≡ t = cc in rw (← same) taken
  Accepted-cons s pool taken all (suc j) t e = all j t e

  Accepted-cases :
      (pool : ServicePool)
      → Accepted pool
        ⊎ ((j : ℕ) × (s : ServiceState) × (get_elem? pool j ≡ some s)
            × (make_address s.node.ip ≡ false))
  Accepted-cases [] = inl (λ j s e. absurd (cc))
  Accepted-cases (s ∷ pool) = elim (Bool-cases (make_address s.node.ip)) [
    | inr refused ↦ inr (0, s, refl, refused)
    | inl taken ↦ elim (Accepted-cases pool) [
      | inl all ↦ inl (Accepted-cons s pool taken all)
      | inr (j, t, at_j, refused) ↦ inr (suc j, t, at_j, refused)
    ]
  ]

  pub probe_all-Accepted :
      (c : HealthChecker)
      → Accepted c.pool
      → probe_all make_address c
        ≡ returns (record c { probes = c.probes ++ round_probes 0 (pool_size c.pool) })
  unfolding probe_all
  probe_all-Accepted c h = probe_from-Accepted c 0 (pool_size c.pool) h (omega arith)

  probe_all_lem :
      (c : HealthChecker)
      → (Accepted c.pool
          × (probe_all make_address c
              ≡ returns (record c { probes = c.probes ++ round_probes 0 (pool_size c.pool) })))
        ⊎ ((j : ℕ) × (s : ServiceState) × (get_elem? c.pool j ≡ some s)
            × (make_address s.node.ip ≡ false)
            × (probe_all make_address c ≡ throws system_error))
  unfolding probe_all
  probe_all_lem c = elim (Accepted-cases c.pool) [
    | inl h ↦ inl (h, probe_all-Accepted c h)
    | inr (j, s, e, h) ↦ inr (
      j,
      s,
      e,
      h,
      probe_from-refused c 0 (pool_size c.pool) j s e h (omega arith)
          (omega (arith, lt-get_elem? c.pool j e)) (omega arith),
    )
  ]

  on_timer-probes :
      (c : HealthChecker)
      → c.stopped ≡ false
      → on_timer make_address c false
        ≡ (probe_all make_address c >>= λ d. returns (schedule_next_round d))
  unfolding on_timer
  on_timer-probes c h = ground arith

  run-refused :
      (c : HealthChecker) (es : List Event)
      → 0 < c.waits
      → c.stopped ≡ false
      → probe_all make_address (record c { waits = c.waits - 1 }) ≡ throws system_error
      → run make_address c (timer false ∷ es) ≡ throws system_error
  unfolding run step
  run-refused c es w h r = ground (arith, on_timer-probes (record c { waits = c.waits - 1 }) h, r)

  step-round :
      (c : HealthChecker)
      → 0 < c.waits
      → c.stopped ≡ false
      → Accepted c.pool
      → step make_address c (timer false)
        ≡ returns (record c { probes = c.probes ++ round_probes 0 (pool_size c.pool) })
  unfolding step schedule_next_round
  step-round c w h ok = ground (
    arith,
    on_timer-probes (record c { waits = c.waits - 1 }) h,
    probe_all-Accepted (record c { waits = c.waits - 1 }) ok,
  )

  -- A wait of a checker that is not stopped runs out, on every path. Asio accepts every address, and the turn of
  -- the event loop starts one probe for each service, in the order of the pool, leaves a wait in place of the
  -- one that ran out and changes nothing else; or Asio refuses the address of some service, and the exception
  -- leaves the event loop: the turn throws, and with it every run that begins with it, so that none of the turns
  -- behind it is taken.
  pub step-timer :
      (c : HealthChecker) (es : List Event)
      → 0 < c.waits
      → c.stopped ≡ false
      → (Accepted c.pool
          × (step make_address c (timer false)
              ≡ returns (record c { probes = c.probes ++ round_probes 0 (pool_size c.pool) })))
        ⊎ ((j : ℕ) × (s : ServiceState) × (get_elem? c.pool j ≡ some s)
            × (make_address s.node.ip ≡ false)
            × (run make_address c (timer false ∷ es) ≡ throws system_error))
  step-timer c es w h = elim (probe_all_lem (record c { waits = c.waits - 1 })) [
    | inl (ok, probed) ↦ inl (ok, step-round c w h ok)
    | inr (j, s, e, refused, thrown) ↦ inr (j, s, e, refused, run-refused c es w h thrown)
  ]

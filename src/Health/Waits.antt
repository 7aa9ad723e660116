-- ===== src/Health/Waits.antt =====
-- The waits of the timer of core/health/HealthChecker.cpp.
use bit_bridge.Prelude.{
  ◌>>=◌, >>=-eq-returns, Option-cases, ℕ, zero, suc, ◌+◌, ◌-◌, ◌≤◌, ◌≡◌, ◌≢◌, refl, sym, ap, ◌∙◌,
  Bool, true, false, List, [], ◌∷◌, get_elem?, returns, arith, length, All, Bytes, inl, inr,
  Bool-cases, lt-get_elem?, none, some, ltb, if◌then◌else◌,
}
use bit_bridge.Model.HealthCheck.{HealthCheckConfig}
use bit_bridge.Model.Balancer.{erase_at}
use bit_bridge.State.Pool.{ServicePool, pool_size}
use bit_bridge.Health.Checker.{
  HealthChecker, Probe, Event, timer, probe_timeout, probe_done, stop_call, close_at,
  on_probe_result, schedule_next_round, start, stop, make_checker, probe_one, probe_from, probe_all,
  on_timer, step, run,
}

length-close_at : (k : ℕ) (ps : List Probe) → length (close_at k ps) ≡ length ps
length-close_at k [] = refl
length-close_at zero (p ∷ ps) = refl
length-close_at (suc k) (p ∷ ps) = ap suc (length-close_at k ps)

length-erase_at_found :
    (k : ℕ) (p : Probe) (ps : List Probe)
    → get_elem? ps k ≡ some p
    → length (erase_at k ps) + 1 ≡ length ps
length-erase_at_found k p [] h = absurd (cc)
length-erase_at_found zero p (q ∷ ps) h = omega arith
length-erase_at_found (suc k) p (q ∷ ps) h = omega (arith, length-erase_at_found k p ps h)

get_elem?-none_le : (k : ℕ) (ps : List Probe) → get_elem? ps k ≡ none → length ps ≤ k
get_elem?-none_le k [] h = omega arith
get_elem?-none_le zero (q ∷ ps) h = absurd (cc)
get_elem?-none_le (suc k) (q ∷ ps) h = omega (arith, get_elem?-none_le k ps h)

-- What is left of so many waits of the timer, where each turn takes one.
abbrev pub waits_left : ℕ → Event → ℕ
waits_left n (timer ec) = n - 1
waits_left n _ = n

-- What is left of so many probes, where each result of one of them takes it.
abbrev pub probes_left : ℕ → Event → ℕ
probes_left n (probe_done k ec) = if ltb k n then n - 1 else n
probes_left n _ = n

abbrev pub left_after : (ℕ → Event → ℕ) → ℕ → List Event → ℕ
left_after f n [] = n
left_after f n (e ∷ es) = left_after f (f n e) es

-- A result touches the pool alone.
on_probe_result-rest :
    (c c' : HealthChecker) (index : ℕ) (ec : Bool)
    → on_probe_result c index ec ≡ returns c'
    → (c'.stopped ≡ c.stopped) × (c'.waits ≡ c.waits) × (c'.probes ≡ c.probes)
unfolding on_probe_result
on_probe_result-rest c c' index ec e = ground arith

module _ (make_address : Bytes → Bool) where
  -- What a turn of the event loop may do to a stopped checker.
  record Quiet (e : Event) (c c' : HealthChecker) : Type 0 where
    stopped : c'.stopped ≡ true
    waits : c'.waits ≡ waits_left c.waits e
    probes : length c'.probes ≡ probes_left (length c.probes) e

  step-Quiet :
      (c c' : HealthChecker) (e : Event)
      → c.stopped ≡ true
      → step make_address c e ≡ returns c'
      → Quiet e c c'
  unfolding step on_timer stop
  step-Quiet c c' (timer ec) h r = ground arith
  step-Quiet c c' (probe_timeout k ec) h r = ground (arith, length-close_at k c.probes)
  step-Quiet c c' (probe_done k ec) h r = elim (Option-cases (get_elem? c.probes k)) [
    | inl e ↦ ground (arith, e, get_elem?-none_le k c.probes e)
    | inr (p, e) ↦ ground (
      arith,
      e,
      lt-get_elem? c.probes k e,
      length-erase_at_found k p c.probes e,
      on_probe_result-rest (record c { probes = erase_at k c.probes }) c' p.index ec,
    )
  ]
  step-Quiet c c' stop_call h r = ground arith

  -- What a run of a stopped checker leaves.
  pub stopped-run :
      (c c' : HealthChecker) (es : List Event)
      → c.stopped ≡ true
      → run make_address c es ≡ returns c'
      → (c'.stopped ≡ true)
        × (c'.waits ≡ left_after waits_left c.waits es)
        × (length c'.probes ≡ left_after probes_left (length c.probes) es)
  unfolding run
  stopped-run c c' [] h r = ground arith
  stopped-run c c' (e ∷ es) h r =
      let (d, first, rest) =
        >>=-eq-returns (step make_address c e) (λ d. run make_address d es) r in
      let quiet = step-Quiet c d e h first in
      let later = stopped-run d c' es quiet.stopped rest in
      (
        later.0,
        later.1 ∙ ap (λ n. left_after waits_left n es) quiet.waits,
        later.2 ∙ ap (λ n. left_after probes_left n es) quiet.probes,
      )

  probe_one-rest :
      (c c' : HealthChecker) (index : ℕ)
      → probe_one make_address c index ≡ returns c'
      → (c'.stopped ≡ c.stopped) × (c'.waits ≡ c.waits)
  unfolding probe_one
  probe_one-rest c c' index r = ground arith

  probe_from-rest :
      (c c' : HealthChecker) (index rounds : ℕ)
      → probe_from make_address c index rounds ≡ returns c'
      → (c'.stopped ≡ c.stopped) × (c'.waits ≡ c.waits)
  unfolding probe_from
  probe_from-rest c c' index zero r = ground arith
  probe_from-rest c c' index (suc rounds) r =
      let (d, first, rest) =
        >>=-eq-returns (probe_one make_address c index)
          (λ d. probe_from make_address d (index + 1) rounds) r in
      let (s1, w1) = probe_one-rest c d index first in
      let (s2, w2) = probe_from-rest d c' (index + 1) rounds rest in (s2 ∙ s1, w2 ∙ w1)

  on_timer-waits :
      (c c' : HealthChecker)
      → c.stopped ≡ false
      → on_timer make_address c false ≡ returns c'
      → c'.waits ≡ c.waits + 1
  unfolding on_timer probe_all schedule_next_round
  on_timer-waits c c' h r =
      let step : on_timer make_address c false
          ≡ (probe_all make_address c >>= λ d. returns (schedule_next_round d)) =
        ground arith in
      let (d, probed, scheduled) =
        >>=-eq-returns (probe_all make_address c) (λ d. returns (schedule_next_round d))
          (sym step ∙ r) in
      let (s, w) = probe_from-rest c d 0 (pool_size c.pool) probed in ground arith

  -- One wait of the timer stands open as long as the checker was not stopped.
  abbrev Waiting : HealthChecker → Type 0
  Waiting c = c.stopped ≡ false → c.waits ≡ 1

  step-Waiting :
      (c c' : HealthChecker) (e : Event)
      → e ≢ timer true
      → Waiting c
      → step make_address c e ≡ returns c'
      → Waiting c'
  unfolding step stop
  step-Waiting c c' (timer true) ne w r = absurd (ne refl)
  step-Waiting c c' (timer false) ne w r = elim (Bool-cases c.stopped) [
    | inl stopped ↦ unfold on_timer in (ground arith)
    | inr running ↦ ground (arith, on_timer-waits (record c { waits = c.waits - 1 }) c' running)
  ]
  step-Waiting c c' (probe_timeout k ec) ne w r = ground arith
  step-Waiting c c' (probe_done k ec) ne w r = elim (Option-cases (get_elem? c.probes k)) [
    | inl e ↦ ground (arith, e)
    | inr (p, e) ↦
        ground
          (arith, e, on_probe_result-rest (record c { probes = erase_at k c.probes }) c' p.index ec)
  ]
  step-Waiting c c' stop_call ne w r = ground arith

  run-Waiting :
      (c c' : HealthChecker) (es : List Event)
      → All (λ e. e ≢ timer true) es
      → Waiting c
      → run make_address c es ≡ returns c'
      → Waiting c'
  unfolding run
  run-Waiting c c' [] ok w r = ground arith
  run-Waiting c c' (e ∷ es) ok w r =
      let (d, first, rest) =
        >>=-eq-returns (step make_address c e) (λ d. run make_address d es) r in
      run-Waiting d c' es ok.1 (step-Waiting c d e ok.0 w first) rest

  -- The wait of a started checker.
  pub waits-run :
      (pool : ServicePool) (config : HealthCheckConfig) (c : HealthChecker) (es : List Event)
      → All (λ e. e ≢ timer true) es
      → run make_address (start (make_checker pool config)) es ≡ returns c
      → c.stopped ≡ false
      → c.waits ≡ 1
  unfolding start make_checker schedule_next_round
  waits-run pool config c es ok r = run-Waiting _ c es ok (λ h. omega arith) r

-- ===== src/System/Runs.antt =====
-- The whole program of core/main.cpp over any turns of its event loop.
use bit_bridge.Prelude.{
  ◌+◌, ◌≤◌, ◌<◌, ◌≡◌, refl, ◌∙◌, Bool, true, false, Bool-cases, Option-cases, List, [], ◌∷◌, Bytes,
  length, ◌⊎◌, All, none, some, returns, arith, inl, inr,
}
use bit_bridge.State.Service.{size_mod}
use bit_bridge.Routing.Strategy.{RoutingStrategy}
use bit_bridge.Health.Checker
use bit_bridge.Health.Checker.{HealthChecker, Probe}
use bit_bridge.Health.Runs.{step-Returns}
use bit_bridge.Proxy.TcpProxy
use bit_bridge.Proxy.TcpProxy.{TcpProxy}
use bit_bridge.Proxy.TcpProxy.Runs.{IsReadable, IsPrompt, step-Served}
use bit_bridge.System.{
  System, Event, of_proxy, of_health, signal, of_checker, of_listener, on_signal, step, run,
}
use bit_bridge.System.Shared.{
  IsRunning, of_listener-IsRunning, of_checker-IsRunning, on_signal-IsRunning,
}

-- The remote address of a new client can be had.
abbrev pub Readable : Event → Type 0
Readable (of_proxy e) = IsReadable e
Readable _ = Unit {0}

module _ (strategy : RoutingStrategy) (make_address : Bytes → Bool) where
  abbrev Whole : Type 0
  Whole = System strategy.State

  abbrev Steps : Whole → Event → Type 0
  Steps s e =
      ((t : Whole) × (step strategy make_address s e ≡ some (returns t))
        × IsRunning strategy make_address t
        × (length t.proxy.sessions ≤ length s.proxy.sessions + 1))
      ⊎ ((step strategy make_address s e ≡ none) × ¬ IsPrompt strategy make_address)

  on_signal-sessions :
      (s : Whole) (ec : Bool) → length (on_signal s ec).proxy.sessions ≤ length s.proxy.sessions + 1
  unfolding on_signal TcpProxy.stop
  on_signal-sessions s true = omega arith
  on_signal-sessions s false = omega arith

  step-of_proxy :
      (s : Whole) (e : TcpProxy.Event) (q : TcpProxy strategy.State)
      → TcpProxy.step strategy make_address s.proxy e ≡ some (returns q)
      → step strategy make_address s (of_proxy e) ≡ some (returns (of_listener s q))
  unfolding step
  step-of_proxy s e q h = rw h refl

  step-absent :
      (s : Whole) (e : Checker.Event)
      → s.checker ≡ none
      → step strategy make_address s (of_health e) ≡ some (returns s)
  unfolding step
  step-absent s e h = ground arith

  step-of_health :
      (s : Whole) (e : Checker.Event) (c d : HealthChecker)
      → s.checker ≡ some c
      → Checker.step make_address c e ≡ returns d
      → step strategy make_address s (of_health e) ≡ some (returns (of_checker s d))
  unfolding step
  step-of_health s e c d h k = ground arith

  step-signal :
      (s : Whole) (ec : Bool)
      → s.signals ≡ true
      → step strategy make_address s (signal ec)
        ≡ some (returns (on_signal (record s { signals = false }) ec))
  unfolding step
  step-signal s ec h = ground arith

  step-handled :
      (s : Whole) (ec : Bool)
      → s.signals ≡ false
      → step strategy make_address s (signal ec) ≡ some (returns s)
  unfolding step
  step-handled s ec h = ground arith

  step-silent :
      (s : Whole) (e : TcpProxy.Event)
      → TcpProxy.step strategy make_address s.proxy e ≡ none
      → step strategy make_address s (of_proxy e) ≡ none
  unfolding step
  step-silent s e h = rw h refl

  step-Steps :
      (s : Whole) (e : Event)
      → Readable e
      → length s.proxy.sessions + 1 < size_mod
      → IsRunning strategy make_address s
      → Steps s e
  step-Steps s (of_proxy e) r small v =
      elim (step-Served strategy make_address s.proxy e r small v.serving) [
        | inl (q, stepped, vq, l, size) ↦ inl (
          of_listener s q,
          step-of_proxy s e q stepped,
          of_listener-IsRunning strategy make_address s q vq size v,
          unfold of_listener in l,
        )
        | inr (stays, slow) ↦ inr (step-silent s e stays, slow)
      ]
  step-Steps s (of_health e) r small v = elim (Option-cases s.checker) [
    | inl absent ↦ inl (s, step-absent s e absent, v, omega arith)
    | inr (c, held) ↦
        let (d, stepped, vd, load) = step-Returns make_address c e (v.checked c held).1 in
        inl (
          of_checker s d,
          step-of_health s e c d held stepped,
          of_checker-IsRunning strategy make_address s c d held vd load v,
          unfold of_checker in (omega arith),
        )
  ]
  step-Steps s (signal ec) r small v = elim (Bool-cases s.signals) [
    | inl waits ↦ inl (
      on_signal (record s { signals = false }) ec,
      step-signal s ec waits,
      on_signal-IsRunning strategy make_address (record s { signals = false }) ec
          (record { serving = v.serving; checked = v.checked }),
      on_signal-sessions (record s { signals = false }) ec,
    )
    | inr handled ↦ inl (s, step-handled s ec handled, v, omega arith)
  ]

  run-cons :
      (s t : Whole) (e : Event) (es : List Event)
      → step strategy make_address s e ≡ some (returns t)
      → run strategy make_address s (e ∷ es) ≡ run strategy make_address t es
  unfolding run
  run-cons s t e es h = ground arith

  run_silent :
      (s : Whole) (e : Event) (es : List Event)
      → step strategy make_address s e ≡ none
      → run strategy make_address s (e ∷ es) ≡ none
  unfolding run
  run_silent s e es h = ground arith

  -- The whole program in its event loop. The proxy and the health checker share the pool, and their turns
  -- and the signals come in any order. Where the addresses of the services are IP addresses and those of
  -- the clients can be had, no exception leaves the loop: every run returns, or a call of the strategy has
  -- not returned, and then the strategy does not always answer. Where it returns, whatever the checker did
  -- to the services, the counter of each service is the number of its live sessions, the two parts hold
  -- the same pool, and every probe is of a service of it, as long as fewer than 2 ^ 64 sessions can have
  -- been opened.
  pub system_serves :
      (s : Whole) (es : List Event)
      → All Readable es
      → length s.proxy.sessions + length es < size_mod
      → IsRunning strategy make_address s
      → ((t : Whole) × (run strategy make_address s es ≡ some (returns t))
          × IsRunning strategy make_address t)
        ⊎ ((run strategy make_address s es ≡ none) × ¬ IsPrompt strategy make_address)
  unfolding run
  system_serves s [] r small v = inl (s, refl, v)
  system_serves s (e ∷ es) r small v = elim (step-Steps s e r.0 (omega arith) v) [
    | inr (stays, slow) ↦ inr (run_silent s e es stays, slow)
    | inl (t, stepped, vt, l) ↦ elim (system_serves t es r.1 (omega arith) vt) [
      | inl (u, ran, vu) ↦ inl (u, run-cons s t e es stepped ∙ ran, vu)
      | inr (stays, slow) ↦ inr (run-cons s t e es stepped ∙ stays, slow)
    ]
  ]

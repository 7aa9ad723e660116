-- ===== src/Proxy/TcpProxy/Accepting.antt =====
-- The accept loop of core/proxy/TcpProxy.cpp.
use mathlib.Core.Option
use bit_bridge.Prelude.{
  ℕ, ◌+◌, ◌-◌, ◌<◌, lt→ltb, if◌then◌else◌, ◌≡◌, ◌≢◌, refl, sym, ap, ◌∙◌, Bool, true, ◌∷◌, Bytes,
  get_elem?, none, some, returns, throws, system_error, value, unexpected, arith, ◌⊎◌, inl, inr,
  Bool-cases, Option-cases, dec_lt, at,
}
use bit_bridge.State.Service.{ServiceState, increment_connections}
use bit_bridge.State.Pool.{pool_size}
use bit_bridge.Routing.Strategy.{RoutingStrategy, RoutingError}
use bit_bridge.Proxy.Session
use bit_bridge.Proxy.Session.{Session, make_session, connect_to_backend}
use bit_bridge.Proxy.TcpProxy.{
  TcpProxy, modify, Accept, operation_aborted, accept_error, client, Event, on_accepted, on_session,
  handle_session, open_session, on_accept, step,
}

-- The proxy with one session more, of the service at an index.
abbrev pub opened : {St : Type 0} → TcpProxy St → St → ℕ → TcpProxy St
opened p st i = record p {
  routing = st;
  pool = modify p.pool i increment_connections;
  sessions =
      connect_to_backend (make_session i p.connect_timeout_ms p.idle_timeout_ms) ∷ p.sessions;
  accepting = p.accepting + 1;
}

module _ (strategy : RoutingStrategy) (make_address : Bytes → Bool) where
  abbrev Proxy : Type 0
  Proxy = TcpProxy strategy.State

  -- What the strategy says of a client, and what the proxy does then.
  abbrev pub Undecided : Proxy → Bytes → Type 0
  Undecided p key =
      (strategy.select_service p.routing p.pool key ≡ none)
      × (on_accept strategy make_address p (client (some key)) ≡ none)

  abbrev pub Dropped : Proxy → Bytes → Type 0
  Dropped p key =
      (e : RoutingError) × (st : strategy.State) × (strategy.select_service p.routing p.pool key
        ≡ some (returns (unexpected e, st)))
      × (on_accept strategy make_address p (client (some key))
          ≡ some (returns (record p { routing = st; accepting = p.accepting + 1 })))

  abbrev pub Chosen : Proxy → Bytes → Type 0
  Chosen p key =
      (i : ℕ) × (st : strategy.State) × (s : ServiceState) × (strategy.select_service p.routing
          p.pool key
        ≡ some (returns (value i, st)))
      × (get_elem? p.pool i ≡ some s)
      × (s.healthy ≡ true)
      × (on_accept strategy make_address p (client (some key))
          ≡ some (if make_address s.node.ip then returns (opened p st i) else throws system_error))

  open_session_lem :
      (p : Proxy) (i : ℕ) (s : ServiceState)
      → get_elem? p.pool i ≡ some s
      → open_session strategy make_address p i
        ≡ (if make_address s.node.ip then returns (opened p p.routing i) else throws system_error)
  unfolding open_session
  open_session_lem p i s at = ground arith

  -- What `OnAccept` does with a client whose address is known, whatever the strategy. It asks the
  -- strategy; while that has not answered, nothing happens. Where it has no service, the client is
  -- dropped: the pool and the sessions stay as they were and the next accept waits. Otherwise the
  -- service is one of the pool and healthy, its counter goes up by one, a session of it starts to
  -- connect, and the next accept waits, unless the address of the service is no IP address, and then an
  -- exception leaves the handler.
  pub on_accept_client :
      (p : Proxy) (key : Bytes)
      → strategy.Fits p.routing (pool_size p.pool)
      → Undecided p key ⊎ (Dropped p key ⊎ Chosen p key)
  unfolding on_accept
  on_accept_client p key fits = elim (Option-cases (strategy.select_service p.routing p.pool key)) [
    | inl e ↦ inl (e, ap (Option.map _) e)
    | inr (throws x, e) ↦ absurd (strategy.select_returns p.routing p.pool key x fits e)
    | inr (returns (unexpected r, st), e) ↦ inr (inl (r, st, e, ap (Option.map _) e))
    | inr (returns (value i, st), e) ↦
        let (s, at, healthy) = strategy.select_sound p.routing p.pool key i st fits e in
        inr (
          inr (
            i,
            st,
            s,
            e,
            at,
            healthy,
            ap (Option.map _) e ∙ ap some (open_session_lem (record p { routing = st }) i s at),
          ))
  ]

  handle_session-accepting :
      (p : Proxy) (k : ℕ) (e : Session.Event) → (handle_session p k e).accepting ≡ p.accepting
  unfolding handle_session
  handle_session-accepting p k e = ground arith

  on_accept-accepting :
      (p q : Proxy) (key : Bytes)
      → strategy.Fits p.routing (pool_size p.pool)
      → on_accept strategy make_address p (client (some key)) ≡ some (returns q)
      → q.accepting ≡ p.accepting + 1
  on_accept-accepting p q key fits e = elim (on_accept_client p key fits) [
    | inl (_, u) ↦ absurd (cc)
    | inr (inl (_, st, _, d)) ↦
        let same : record p { routing = st; accepting = p.accepting + 1 } ≡ q = cc in
        sym (ap (λ x. x.accepting) same)
    | inr (inr (i, st, s, _, _, _, c)) ↦ elim (Bool-cases (make_address s.node.ip)) [
      | inl good ↦ let same : opened p st i ≡ q = ground arith in sym (ap (λ x. x.accepting) same)
      | inr bad ↦ absurd (ground arith)
    ]
  ]

  pub step-on_accepted :
      (p : Proxy) (a : Accept)
      → 0 < p.accepting
      → step strategy make_address p (on_accepted a)
        ≡ on_accept strategy make_address (record p { accepting = p.accepting - 1 }) a
  unfolding step
  step-on_accepted p a h = rw (lt→ltb 0 p.accepting h) refl

  pub step-unaccepted :
      (p : Proxy) (a : Accept)
      → ¬ (0 < p.accepting)
      → step strategy make_address p (on_accepted a) ≡ some (returns p)
  unfolding step
  step-unaccepted p a h = ground arith

  step-client-accepting :
      (p q : Proxy) (key : Bytes)
      → strategy.Fits p.routing (pool_size p.pool)
      → step strategy make_address p (on_accepted (client (some key))) ≡ some (returns q)
      → q.accepting ≡ p.accepting
  step-client-accepting p q key fits h = elim (dec_lt 0 p.accepting) [
    | yes w ↦ omega (
      arith,
      on_accept-accepting (record p { accepting = p.accepting - 1 }) q key fits
          (sym (step-on_accepted p (client (some key)) w) ∙ h),
    )
    | no w ↦
        let same : p ≡ q = cc (h, step-unaccepted p (client (some key)) w) in
        sym (ap (λ x. x.accepting) same)
  ]

  -- The accept loop. Only the error of an aborted accept ends it: a turn of the event loop that returns
  -- leaves as many accepts waiting as before, also after an accept that failed and after `Stop`.
  pub accept_loop :
      (p q : Proxy) (e : Event)
      → strategy.Fits p.routing (pool_size p.pool)
      → step strategy make_address p e ≡ some (returns q)
      → ((e ≢ on_accepted operation_aborted) × (q.accepting ≡ p.accepting))
        ⊎ ((e ≡ on_accepted operation_aborted) × (q ≡ record p { accepting = p.accepting - 1 }))
  unfolding step
  accept_loop p q (on_session k e) fits h =
      let same : handle_session p k e ≡ q = cc in
      inl (λ s. cc, sym (ap (λ x. x.accepting) same) ∙ handle_session-accepting p k e)
  accept_loop p q (on_accepted operation_aborted) fits h = inr (refl, ground arith)
  accept_loop p q (on_accepted accept_error) fits h = inl (λ s. cc, ground arith)
  accept_loop p q (on_accepted (client none)) fits h = inl (λ s. cc, ground arith)
  accept_loop p q (on_accepted (client (some key))) fits h =
      inl (λ s. cc, step-client-accepting p q key fits h)

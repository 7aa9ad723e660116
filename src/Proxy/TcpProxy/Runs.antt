-- ===== src/Proxy/TcpProxy/Runs.antt =====
-- A turn of core/proxy/TcpProxy.cpp with its sessions.
use bit_bridge.Proxy.TcpProxy.Lists.{length-modify}
use bit_bridge.Prelude.{
  ℕ, ◌+◌, ◌-◌, ◌≤◌, ◌<◌, ◌≡◌, ◌≢◌, refl, ap, ◌∙◌, Bool, List, ◌∷◌, Bytes, length, ◌⊎◌, Option,
  Outcome, none, some, returns, arith, inl, inr, dec_lt, lt-get_elem?,
}
use bit_bridge.State.Service.{size_mod, increment_connections, decrement_connections}
use bit_bridge.State.Pool.{ServicePool, pool_size}
use bit_bridge.Routing.Strategy.{RoutingStrategy}
use bit_bridge.Proxy.Session
use bit_bridge.Proxy.Session.{Session, handlers, make_session, connect_to_backend}
use bit_bridge.Proxy.TcpProxy.{
  TcpProxy, modify, Accept, operation_aborted, accept_error, client, Event, on_accepted, on_session,
  accept_next, handle_session, on_accept, step,
}
use bit_bridge.Proxy.TcpProxy.Accepting.{
  opened, on_accept_client, step-on_accepted, step-unaccepted,
}
use bit_bridge.Proxy.TcpProxy.Counts.{
  Counted, open-Counted, handle_session-Counted, handle_session-pool, handle_session-routing,
  handle_session-sessions,
}
use bit_bridge.Proxy.TcpProxy.Addresses.{
  Addressed, Addressed-get_elem?, modify-Addressed, increment_connections-node,
  decrement_connections-node,
}

-- The remote address of a new client can be had.
abbrev pub IsReadable : Event → Type 0
IsReadable (on_accepted (client none)) = ⊥
IsReadable _ = Unit {0}

connect_to_backend-held : (i c t : ℕ) → 0 < handlers (connect_to_backend (make_session i c t))
unfolding connect_to_backend make_session handlers
connect_to_backend-held i c t = omega arith

connect_to_backend-backend : (i c t : ℕ) → (connect_to_backend (make_session i c t)).backend ≡ i
unfolding connect_to_backend make_session
connect_to_backend-backend i c t = refl

opened-Counted :
    (pool : ServicePool) (sessions : List Session) (s : Session) (i : ℕ)
    → s.backend ≡ i
    → length sessions + 1 < size_mod
    → i < pool_size pool
    → 0 < handlers s
    → Counted pool sessions
    → Counted (modify pool i increment_connections) (s ∷ sessions)
opened-Counted pool sessions s i e small h held c =
    rw (← e) (open-Counted pool sessions s small (omega arith) held c)

handle_session-size :
    {St : Type 0} (p : TcpProxy St) (k : ℕ) (e : Session.Event)
    → pool_size (handle_session p k e).pool ≡ pool_size p.pool
handle_session-size p k e = elim (handle_session-pool p k e) [
  | inl same ↦ ap pool_size same
  | inr (i, same) ↦ ap pool_size same ∙ length-modify p.pool i decrement_connections
]

module _ (strategy : RoutingStrategy) (make_address : Bytes → Bool) where
  abbrev Proxy : Type 0
  Proxy = TcpProxy strategy.State

  -- The strategy answers every call on a pool that it fits.
  abbrev pub IsPrompt : Type 0
  IsPrompt =
      (st : strategy.State) (pool : ServicePool) (key : Bytes)
      → strategy.Fits st (pool_size pool)
      → strategy.select_service st pool key ≢ none

  pub record IsServing (p : Proxy) : Type 0 where
    pub counted : Counted p.pool p.sessions
    pub fits : strategy.Fits p.routing (pool_size p.pool)
    pub addressed : Addressed make_address p.pool

  -- A turn of the event loop that returns.
  abbrev pub Served : Option (Outcome Proxy) → Proxy → Type 0
  Served o p =
      (q : Proxy) × (o ≡ some (returns q))
      × IsServing q
      × (length q.sessions ≤ length p.sessions + 1)
      × (pool_size q.pool ≡ pool_size p.pool)

  -- One that does not, because the strategy does not.
  abbrev pub Silent : Option (Outcome Proxy) → Type 0
  Silent o = (o ≡ none) × ¬ IsPrompt

  handle_session-IsServing :
      (p : Proxy) (k : ℕ) (e : Session.Event) → IsServing p → IsServing (handle_session p k e)
  handle_session-IsServing p k e v =
      let counted = handle_session-Counted p k e v.counted in
      elim (handle_session-pool p k e) [
        | inl same ↦ record {
          counted = counted;
          fits = rw (same, handle_session-routing p k e) v.fits;
          addressed = rw same v.addressed;
        }
        | inr (i, same) ↦ record {
          counted = counted;
          fits =
              rw (same, handle_session-routing p k e, length-modify p.pool i decrement_connections)
                v.fits;
          addressed = rw same (
              modify-Addressed make_address p.pool i decrement_connections
                decrement_connections-node v.addressed);
        }
      ]

  opened-IsServing :
      (p : Proxy) (st : strategy.State) (i : ℕ)
      → i < pool_size p.pool
      → length p.sessions + 1 < size_mod
      → strategy.Fits st (pool_size p.pool)
      → IsServing p
      → IsServing (opened p st i)
  opened-IsServing p st i h small fits v =
      let s = connect_to_backend (make_session i p.connect_timeout_ms p.idle_timeout_ms) in
      let of_i = connect_to_backend-backend i p.connect_timeout_ms p.idle_timeout_ms in
      let held = connect_to_backend-held i p.connect_timeout_ms p.idle_timeout_ms in
      record {
        counted = opened-Counted p.pool p.sessions s i of_i small h held v.counted;
        fits = rw (length-modify p.pool i increment_connections) fits;
        addressed =
            modify-Addressed make_address p.pool i increment_connections increment_connections-node
              v.addressed;
      }

  on_accept-Served :
      (p : Proxy) (a : Accept)
      → IsReadable (on_accepted a)
      → length p.sessions + 1 < size_mod
      → IsServing p
      → Served (on_accept strategy make_address p a) p
        ⊎ Silent (on_accept strategy make_address p a)
  unfolding on_accept
  on_accept-Served p operation_aborted r small v = inl (p, refl, v, omega arith, refl)
  on_accept-Served p accept_error r small v = inl (
    accept_next p,
    refl,
    record { counted = v.counted; fits = v.fits; addressed = v.addressed },
    omega arith,
    refl,
  )
  on_accept-Served p (client none) r small v = absurd r
  on_accept-Served p (client (some key)) r small v =
      elim (on_accept_client strategy make_address p key v.fits) [
        | inl (never, stays) ↦ inr (stays, λ prompt. prompt p.routing p.pool key v.fits never)
        | inr (inl (x, st, chose, d)) ↦ inl (
          record p { routing = st; accepting = p.accepting + 1 },
          d,
          record {
            counted = v.counted;
            fits = strategy.select_fits p.routing p.pool key _ st v.fits chose;
            addressed = v.addressed;
          },
          omega arith,
          refl,
        )
        | inr (inr (i, st, s, chose, at, _, c)) ↦
            let good = Addressed-get_elem? make_address p.pool i v.addressed at in
            inl (
              opened p st i,
              c ∙ rw good refl,
              opened-IsServing p st i (lt-get_elem? p.pool i at) small
                  (strategy.select_fits p.routing p.pool key _ st v.fits chose) v,
              omega arith,
              length-modify p.pool i increment_connections,
            )
      ]

  pub step-Served :
      (p : Proxy) (e : Event)
      → IsReadable e
      → length p.sessions + 1 < size_mod
      → IsServing p
      → Served (step strategy make_address p e) p ⊎ Silent (step strategy make_address p e)
  unfolding step
  step-Served p (on_session k e) r small v = inl (
    handle_session p k e,
    refl,
    handle_session-IsServing p k e v,
    omega (arith, handle_session-sessions p k e),
    handle_session-size p k e,
  )
  step-Served p (on_accepted a) r small v = elim (dec_lt 0 p.accepting) [
    | yes w ↦
        elim (on_accept-Served (record p { accepting = p.accepting - 1 }) a r small
          (record { counted = v.counted; fits = v.fits; addressed = v.addressed })) [
            | inl (q, ran, vq, l, size) ↦
                inl (q, step-on_accepted strategy make_address p a w ∙ ran, vq, l, size)
            | inr (stays, slow) ↦ inr (step-on_accepted strategy make_address p a w ∙ stays, slow)
          ]
    | no w ↦ inl (p, step-unaccepted strategy make_address p a w, v, omega arith, refl)
  ]

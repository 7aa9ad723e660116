-- ===== src/Proxy/TcpProxy/Counts.antt =====
-- The connection counters of the pool and the sessions of core/proxy/TcpProxy.cpp.
use bit_bridge.Prelude.{
  ℕ, ◌+◌, ◌≤◌, ◌<◌, ◌==◌, ◌≡◌, sym, ap, ◌∙◌, true, false, List, [], ◌∷◌, ◌⊎◌, length-set, length,
  get_elem?, set, All, none, some, arith, inl, inr, Bool-cases, Option-cases,
}
use bit_bridge.State.Service.{ServiceState, size_mod, increment_connections, decrement_connections}
use bit_bridge.State.Pool.{ServicePool, pool_size}
use bit_bridge.Proxy.Session
use bit_bridge.Proxy.Session.{Session, handlers, make_session, connect_to_backend}
use bit_bridge.Proxy.TcpProxy.{TcpProxy, modify, remove, handle_session}
use bit_bridge.Proxy.TcpProxy.Lists.{
  count, count-le, length-modify, modify-inv, count-remove, count-set, length-remove, All-get_elem?,
  All-set, All-remove,
}

-- Each counter is the number of the backend's sessions, and each session is held by a handler and has
-- a backend of the pool.
pub record Counted (pool : ServicePool) (sessions : List Session) : Type 0 where
  pub counts :
      (i : ℕ) (b : ServiceState)
      → get_elem? pool i ≡ some b
      → b.active_connections ≡ count i sessions
  pub backends : All (λ s. s.backend < pool_size pool) sessions
  pub held : All (λ s. 0 < handlers s) sessions

step-backend : (s : Session) (e : Session.Event) → (Session.step s e).backend ≡ s.backend
unfolding Session.step
step-backend s (Session.connected ec) = ground arith
step-backend s e = ground arith

backends-modify :
    (pool : ServicePool) (i : ℕ) (f : ServiceState → ServiceState) (sessions : List Session)
    → All (λ s. s.backend < pool_size pool) sessions
    → All (λ s. s.backend < pool_size (modify pool i f)) sessions
backends-modify pool i f [] h = tt
backends-modify pool i f (s ∷ sessions) h =
    (omega (arith, length-modify pool i f, h.0), backends-modify pool i f sessions h.1)

-- A new session of a service of the pool, which is counted before it starts.
pub open-Counted :
    (pool : ServicePool) (sessions : List Session) (s : Session)
    → length sessions + 1 < size_mod
    → s.backend < pool_size pool
    → 0 < handlers s
    → Counted pool sessions
    → Counted (modify pool s.backend increment_connections) (s ∷ sessions)
unfolding increment_connections
open-Counted pool sessions s small b h c = record {
  counts = λ i b' e.
      let (a, at, same) = modify-inv pool s.backend i increment_connections e in
      ground (arith, c.counts i a at, count-le i sessions);
  backends = backends-modify pool s.backend increment_connections (s ∷ sessions) (b, c.backends);
  held = (h, c.held);
}

destroy-Counted :
    (pool : ServicePool) (sessions : List Session) (k : ℕ) (s : Session)
    → get_elem? sessions k ≡ some s
    → Counted pool sessions
    → Counted (modify pool s.backend decrement_connections) (remove sessions k)
unfolding decrement_connections
destroy-Counted pool sessions k s at c = record {
  counts = λ i b' e.
      let (a, found, same) = modify-inv pool s.backend i decrement_connections e in
      ground (arith, c.counts i a found, count-remove i k sessions at);
  backends =
      backends-modify pool s.backend decrement_connections (remove sessions k)
        (All-remove _ sessions k c.backends);
  held = All-remove _ sessions k c.held;
}

keep-Counted :
    (pool : ServicePool) (sessions : List Session) (k : ℕ) (s t : Session)
    → get_elem? sessions k ≡ some s
    → t.backend ≡ s.backend
    → 0 < handlers t
    → Counted pool sessions
    → Counted pool (set sessions k t)
keep-Counted pool sessions k s t at same h c = record {
  counts = λ i b e. c.counts i b e ∙ sym (count-set i k sessions t at same);
  backends =
      All-set (λ u. u.backend < pool_size pool) sessions k t c.backends
        (rw same (All-get_elem? (λ u. u.backend < pool_size pool) sessions k c.backends at));
  held = All-set (λ u. 0 < handlers u) sessions k t c.held h;
}

module _ {St : Type 0} (p : TcpProxy St) (k : ℕ) (e : Session.Event) where
  handle_session-absent : get_elem? p.sessions k ≡ none → handle_session p k e ≡ p
  unfolding handle_session
  handle_session-absent h = ground arith

  handle_session-destroyed :
      (s : Session)
      → get_elem? p.sessions k ≡ some s
      → (handlers (Session.step s e) == 0) ≡ true
      → handle_session p k e ≡ record p {
        sessions = remove p.sessions k;
        pool = modify p.pool s.backend decrement_connections;
      }
  unfolding handle_session
  handle_session-destroyed s at h = ground arith

  handle_session-kept :
      (s : Session)
      → get_elem? p.sessions k ≡ some s
      → (handlers (Session.step s e) == 0) ≡ false
      → handle_session p k e ≡ record p { sessions = set p.sessions k (Session.step s e) }
  unfolding handle_session
  handle_session-kept s at h = ground arith

  -- What else a handler of a session leaves.
  pub handle_session-pool :
      ((handle_session p k e).pool ≡ p.pool)
      ⊎ ((i : ℕ) × ((handle_session p k e).pool ≡ modify p.pool i decrement_connections))
  handle_session-pool = elim (Option-cases (get_elem? p.sessions k)) [
    | inl absent ↦ inl (ap (λ x. x.pool) (handle_session-absent absent))
    | inr (s, at) ↦ elim (Bool-cases (handlers (Session.step s e) == 0)) [
      | inl gone ↦ inr (s.backend, ap (λ x. x.pool) (handle_session-destroyed s at gone))
      | inr held ↦ inl (ap (λ x. x.pool) (handle_session-kept s at held))
    ]
  ]

  pub handle_session-routing : (handle_session p k e).routing ≡ p.routing
  unfolding handle_session
  handle_session-routing = ground arith

  pub handle_session-sessions : length (handle_session p k e).sessions ≤ length p.sessions
  handle_session-sessions = elim (Option-cases (get_elem? p.sessions k)) [
    | inl absent ↦ rw (handle_session-absent absent) (omega arith)
    | inr (s, at) ↦ elim (Bool-cases (handlers (Session.step s e) == 0)) [
      | inl gone ↦ rw (handle_session-destroyed s at gone) (length-remove p.sessions k)
      | inr held ↦
          rw (handle_session-kept s at held)
            (omega (arith, length-set p.sessions k (Session.step s e)))
    ]
  ]

-- A handler of any session runs.
pub handle_session-Counted :
    {St : Type 0} (p : TcpProxy St) (k : ℕ) (e : Session.Event)
    → Counted p.pool p.sessions
    → let q = handle_session p k e in Counted q.pool q.sessions
handle_session-Counted p k e c = elim (Option-cases (get_elem? p.sessions k)) [
  | inl absent ↦ rw (handle_session-absent p k e absent) c
  | inr (s, at) ↦ elim (Bool-cases (handlers (Session.step s e) == 0)) [
    | inl gone ↦
        rw (handle_session-destroyed p k e s at gone) (destroy-Counted p.pool p.sessions k s at c)
    | inr held ↦ rw (handle_session-kept p k e s at held) (
        keep-Counted p.pool p.sessions k s (Session.step s e) at (step-backend s e) (ground arith)
          c)
  ]
]

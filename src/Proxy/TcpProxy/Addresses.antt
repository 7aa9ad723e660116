-- ===== src/Proxy/TcpProxy/Addresses.antt =====
-- The addresses of the services of a pool, which the calls of core/state leave alone.
use bit_bridge.Prelude.{
  ℕ, zero, suc, ◌≡◌, refl, Bool, true, [], ◌∷◌, Bytes, get_elem?, All, some, arith,
}
use bit_bridge.State.Service.{ServiceState, increment_connections, decrement_connections}
use bit_bridge.State.Pool.{ServicePool}
use bit_bridge.Proxy.TcpProxy.{modify}

module _ (make_address : Bytes → Bool) where
  -- Every service has an address that Asio accepts.
  abbrev pub Addressed : ServicePool → Type 0
  Addressed = All (λ s. make_address s.node.ip ≡ true)

  pub Addressed-get_elem? :
      (pool : ServicePool) (i : ℕ) {s : ServiceState}
      → Addressed pool
      → get_elem? pool i ≡ some s
      → make_address s.node.ip ≡ true
  Addressed-get_elem? [] i a h = absurd (cc)
  Addressed-get_elem? (t ∷ pool) zero {s} a h = let same : t ≡ s = cc in rw (← same) a.0
  Addressed-get_elem? (t ∷ pool) (suc i) a h = Addressed-get_elem? pool i a.1 h

  -- A call of a service that leaves its node alone.
  pub modify-Addressed :
      (pool : ServicePool) (i : ℕ) (f : ServiceState → ServiceState)
      → ((s : ServiceState) → (f s).node ≡ s.node)
      → Addressed pool
      → Addressed (modify pool i f)
  unfolding modify
  modify-Addressed [] i f n a = tt
  modify-Addressed (s ∷ pool) zero f n a = (rw (n s) a.0, a.1)
  modify-Addressed (s ∷ pool) (suc i) f n a = (a.0, modify-Addressed pool i f n a.1)

pub increment_connections-node : (s : ServiceState) → (increment_connections s).node ≡ s.node
unfolding increment_connections
increment_connections-node s = refl

pub decrement_connections-node : (s : ServiceState) → (decrement_connections s).node ≡ s.node
unfolding decrement_connections
decrement_connections-node s = ground arith

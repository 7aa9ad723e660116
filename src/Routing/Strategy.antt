-- ===== src/Routing/Strategy.antt =====
-- core/routing/IRoutingStrategy.hpp and RoutingError.hpp: what the proxy knows of a strategy.
use bit_bridge.Prelude.{
  ◌≢◌, Bool, false, none, Option, Option-cases, inl, inr, arith, throws, Exception, ℕ, ◌≡◌, true,
  Outcome, returns, Expected, value, Bytes, get_elem?, some,
}
use bit_bridge.State.Service.{ServiceState}
use bit_bridge.State.Pool.{ServicePool, pool_size}

pub data RoutingError : Type 0 where
  no_healthy_services pool_empty : RoutingError

-- What `SelectService` returns.
abbrev pub Selection : Type 0
Selection = Expected RoutingError ℕ

-- The service at an index of the pool is there and healthy.
abbrev pub HealthyAt : ServicePool → ℕ → Type 0
HealthyAt pool i = (s : ServiceState) × (get_elem? pool i ≡ some s) × (s.healthy ≡ true)

-- The same as a test.
abbrev pub healthy_at : ServicePool → ℕ → Bool
healthy_at pool i = elim (get_elem? pool i) [ some s ↦ s.healthy | none ↦ false ]

pub healthy_at-HealthyAt :
    (pool : ServicePool) (i : ℕ) → healthy_at pool i ≡ true → HealthyAt pool i
healthy_at-HealthyAt pool i h = elim (Option-cases (get_elem? pool i)) [
  | inl e ↦ absurd (ground arith)
  | inr (s, e) ↦ (s, e, ground arith)
]

pub HealthyAt-healthy_at :
    (pool : ServicePool) (i : ℕ) → HealthyAt pool i → healthy_at pool i ≡ true
HealthyAt-healthy_at pool i (s, e, h) = ground arith

-- A strategy with its own state. `Fits` is what its state has to do with the size of the pool that
-- it serves. `none` is a call that has not returned yet: one strategy draws until two numbers differ.
-- On a pool that it fits a call never throws, a choice is the index of a healthy service, and the
-- state that it leaves fits the pool again.
pub record RoutingStrategy : Type 1 where
  pub State : Type 0
  pub Fits : State → ℕ → Type 0
  pub select_service : State → ServicePool → Bytes → Option (Outcome (Selection × State))
  pub select_sound :
      (st : State) (pool : ServicePool) (key : Bytes) (i : ℕ) (st' : State)
      → Fits st (pool_size pool)
      → select_service st pool key ≡ some (returns (value i, st'))
      → HealthyAt pool i
  pub select_returns :
      (st : State) (pool : ServicePool) (key : Bytes) (e : Exception)
      → Fits st (pool_size pool)
      → select_service st pool key ≢ some (throws e)
  pub select_fits :
      (st : State) (pool : ServicePool) (key : Bytes) (r : Selection) (st' : State)
      → Fits st (pool_size pool)
      → select_service st pool key ≡ some (returns (r, st'))
      → Fits st' (pool_size pool)

-- ===== src/Health/Probes.antt =====
-- The probes of core/health/HealthChecker.cpp, and what a result leaves in the pool.
use bit_bridge.Prelude.{
  ℕ, zero, suc, ◌+◌, ◌≤◌, ◌<◌, ◌≡◌, refl, some, Bool, List, [], ◌∷◌, get_elem?, arith, All, Bytes,
}
use bit_bridge.Model.Balancer.{erase_at}
use bit_bridge.State.Service.{ServiceState}
use bit_bridge.State.Pool.{ServicePool, pool_size}
use bit_bridge.Health.Checker.{Probe, close_at}
use bit_bridge.Health.Rounds.{round_probes}

-- Each probe is of a service of the pool.
abbrev pub Inside : ServicePool → List Probe → Type 0
Inside pool = All (λ p. p.index < pool_size pool)

pub Inside-round_probes :
    (make_address : Bytes → Bool) (pool : ServicePool) (index rounds : ℕ)
    → index + rounds ≤ pool_size pool
    → Inside pool (round_probes make_address index rounds)
Inside-round_probes m pool index zero h = tt
Inside-round_probes m pool index (suc rounds) h =
    (omega arith, Inside-round_probes m pool (index + 1) rounds (omega arith))

pub Inside-close_at :
    (pool : ServicePool) (k : ℕ) (ps : List Probe) → Inside pool ps → Inside pool (close_at k ps)
Inside-close_at pool k [] h = tt
Inside-close_at pool zero (p ∷ ps) h = h
Inside-close_at pool (suc k) (p ∷ ps) h = (h.0, Inside-close_at pool k ps h.1)

pub Inside-erase_at :
    (pool : ServicePool) (k : ℕ) (ps : List Probe) → Inside pool ps → Inside pool (erase_at k ps)
Inside-erase_at pool k [] h = tt
Inside-erase_at pool zero (p ∷ ps) h = h.1
Inside-erase_at pool (suc k) (p ∷ ps) h = (h.0, Inside-erase_at pool k ps h.1)

pub Inside-get_elem? :
    (pool : ServicePool) (ps : List Probe) (k : ℕ) {p : Probe}
    → Inside pool ps
    → get_elem? ps k ≡ some p
    → p.index < pool_size pool
Inside-get_elem? pool [] k h e = absurd (cc)
Inside-get_elem? pool (q ∷ ps) zero {p} h e = let same : q ≡ p = cc in rw (← same) h.0
Inside-get_elem? pool (q ∷ ps) (suc k) h e = Inside-get_elem? pool ps k h.1 e

pub Inside-size :
    (pool pool' : ServicePool) (ps : List Probe)
    → pool_size pool' ≡ pool_size pool
    → Inside pool ps
    → Inside pool' ps
Inside-size pool pool' [] e h = tt
Inside-size pool pool' (p ∷ ps) e h = (omega arith, Inside-size pool pool' ps e h.1)

-- The services of two pools differ in their health alone.
pub record SameLoad (pool pool' : ServicePool) : Type 0 where
  pub size : pool_size pool' ≡ pool_size pool
  pub same :
      (j : ℕ) (t : ServiceState)
      → get_elem? pool' j ≡ some t
      → (s : ServiceState) × (get_elem? pool j ≡ some s)
        × (t.active_connections ≡ s.active_connections)
        × (t.node ≡ s.node)

pub SameLoad-refl : (pool : ServicePool) → SameLoad pool pool
SameLoad-refl pool = record { size = refl; same = λ j t e. (t, e, refl, refl) }

-- ===== src/Routing/Strategies.antt =====
-- The two strategies of core/routing as implementations of `IRoutingStrategy`.
use bit_bridge.Prelude.{
  ℕ, ◌≡◌, ◌≢◌, Bytes, some, Outcome, returns, throws, Exception, value, inl, inr, List,
}
use bit_bridge.State.Pool.{ServicePool, pool_size}
use bit_bridge.Routing.Strategy.{RoutingStrategy, Selection, HealthyAt}
use bit_bridge.Routing.Ring.Sort.{Point}
use bit_bridge.Routing.Ring.Select
use bit_bridge.Routing.Ring.Choice.{Fits, select_service-total}
use bit_bridge.Routing.Xoshiro.{Xoshiro}
use bit_bridge.Routing.P2c
use bit_bridge.Routing.P2c.{Distribution}
use bit_bridge.Routing.P2c.Outcomes.{select_service-cases}

-- A ring stays as it is.
abbrev pub with_ring : List Point → Outcome Selection → Outcome (Selection × List Point)
with_ring ring (returns s) = returns (s, ring)
with_ring ring (throws e) = throws e

module _ (ring : List Point) where
  pub with_ring-returns :
      (o : Outcome Selection) (s : Selection) (r : List Point)
      → some (with_ring ring o) ≡ some (returns (s, r))
      → o ≡ returns s
  with_ring-returns (returns t) s r e = cc
  with_ring-returns (throws x) s r e = absurd (cc)

  pub with_ring-throws :
      (o : Outcome Selection) (x : Exception)
      → some (with_ring ring o) ≡ some (throws x)
      → o ≡ throws x
  with_ring-throws (returns t) x e = absurd (cc)
  with_ring-throws (throws y) x e = cc

  pub with_ring-Fits :
      (n : ℕ) (o : Outcome Selection) (s : Selection) (r : List Point)
      → Fits ring n
      → some (with_ring ring o) ≡ some (returns (s, r))
      → Fits r n
  with_ring-Fits n (returns t) s r f e = let same : ring ≡ r = cc in rw (← same) f
  with_ring-Fits n (throws x) s r f e = absurd (cc)

  module _ (pool : ServicePool) (key : Bytes) (fits : Fits ring (pool_size pool)) where
    pub ring_sound :
        (i : ℕ) → Select.select_service ring pool key ≡ returns (value i) → HealthyAt pool i
    ring_sound i e = elim (select_service-total ring pool fits key) [
      | inl (_, f) ↦ absurd (cc)
      | inr (inl (j, f, h)) ↦ let same : j ≡ i = cc in rw (← same) h
      | inr (inr (f, _)) ↦ absurd (cc)
    ]

    pub ring-returns : (x : Exception) → Select.select_service ring pool key ≢ throws x
    ring-returns x e = elim (select_service-total ring pool fits key) [
      | inl (_, f) ↦ cc
      | inr (inl (j, f, h)) ↦ cc
      | inr (inr (f, _)) ↦ cc
    ]

-- The consistent hash ring.
abbrev pub ring_strategy : RoutingStrategy
ring_strategy = record {
  State = List Point;
  Fits = Fits;
  select_service = λ ring pool key. some (with_ring ring (Select.select_service ring pool key));
  select_sound = λ ring pool key i ring' fits e.
      ring_sound ring pool key fits i (with_ring-returns ring _ _ ring' e);
  select_returns =
      λ ring pool key x fits e. ring-returns ring pool key fits x (with_ring-throws ring _ x e);
  select_fits = λ ring pool key s ring' fits e.
      with_ring-Fits ring (pool_size pool) (Select.select_service ring pool key) s ring' fits e;
}

module _ (dist : Distribution) (fuel : ℕ) (r : Xoshiro) (pool : ServicePool) where
  pub p2c_sound :
      (i : ℕ) (r' : Xoshiro)
      → P2c.select_service dist fuel r pool ≡ some (returns (value i, r'))
      → HealthyAt pool i
  p2c_sound i r' e = elim (select_service-cases dist pool fuel r) [
    | inl (_, f) ↦ absurd (cc)
    | inr (inl (_, _, f)) ↦ absurd (cc)
    | inr (inr (inl (_, (j, f, h)))) ↦ let same : j ≡ i = cc in rw (← same) h
    | inr (inr (inr (_, inl f))) ↦ absurd (cc)
    | inr (inr (inr (_, inr (j, _, f, light)))) ↦
        let same : j ≡ i = cc in
        rw (← same) (light.chosen_state, light.chosen_at, light.chosen_healthy)
  ]

  pub p2c-returns : (x : Exception) → P2c.select_service dist fuel r pool ≢ some (throws x)
  p2c-returns x e = elim (select_service-cases dist pool fuel r) [
    | inl (_, f) ↦ cc
    | inr (inl (_, _, f)) ↦ cc
    | inr (inr (inl (_, (j, f, h)))) ↦ cc
    | inr (inr (inr (_, inl f))) ↦ cc
    | inr (inr (inr (_, inr (j, _, f, light)))) ↦ cc
  ]

-- Two random choices, on any pool, with a bound on the draws of one call.
abbrev pub p2c_strategy : Distribution → ℕ → RoutingStrategy
p2c_strategy dist fuel = record {
  State = Xoshiro;
  Fits = λ r n. Unit {0};
  select_service = λ r pool key. P2c.select_service dist fuel r pool;
  select_sound = λ r pool key i r' fits e. p2c_sound dist fuel r pool i r' e;
  select_returns = λ r pool key x fits e. p2c-returns dist fuel r pool x e;
  select_fits = λ r pool key s r' fits e. tt;
}

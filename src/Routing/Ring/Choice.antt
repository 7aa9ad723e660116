-- ===== src/Routing/Ring/Choice.antt =====
-- What `SelectService` of core/routing/ConsistentHashStrategy.cpp chooses, on a ring that its
-- constructor made.
use bit_bridge.Prelude.{
  ℕ, ◌≤◌, ◌<◌, ◌≡◌, refl, sym, ap, ◌∙◌, true, false, List, [], ◌∷◌, ◌++◌, length, All, Any, returns,
  value, unexpected, arith, Bytes, Bool-cases, get_elem?-ge, dec_lt, inl, inr, ◌⊎◌,
}
use bit_bridge.State.Pool.{ServicePool, pool_size}
use bit_bridge.Routing.Fnv.{hash64}
use bit_bridge.Routing.Strategy.{
  no_healthy_services, pool_empty, Selection, HealthyAt, healthy_at, healthy_at-HealthyAt,
}
use bit_bridge.Routing.Ring.Sort.{Point, IsAscending}
use bit_bridge.Routing.Ring.Points.{vnodes_per_service, build_ring}
use bit_bridge.Routing.Ring.Build.{build_ring_of-returns}
use bit_bridge.Routing.Ring.Members.{Covers, build_ring_of-Covers}
use bit_bridge.Routing.Ring.Select.{select_service}
use bit_bridge.Routing.Ring.Walk.{scan, keep_from, keep_below, clockwise, select_hash-scan}

-- What the constructor gives: hashes in ascending order, and points of every service.
pub record Fits (ring : List Point) (size : ℕ) : Type 0 where
  pub ascending : IsAscending ring
  pub covers : Covers ring size

pub build_ring-Fits :
    (pool : ServicePool) {ring : List Point}
    → build_ring pool ≡ returns ring
    → Fits ring (pool_size pool)
unfolding build_ring
build_ring-Fits pool e = record {
  ascending = (build_ring_of-returns vnodes_per_service pool e).0;
  covers = build_ring_of-Covers 149 pool e;
}

scan-healthy :
    (pool : ServicePool) (l : List Point) (i : ℕ) → scan pool l ≡ value i → healthy_at pool i ≡ true
scan-healthy pool [] i e = absurd (cc)
scan-healthy pool (p ∷ l) i e = ground (arith, scan-healthy pool l i)

abbrev Unhealthy : ServicePool → List Point → Type 0
Unhealthy pool = All (λ p. healthy_at pool p.service ≡ false)

scan_none :
    (pool : ServicePool) (l : List Point)
    → scan pool l ≡ unexpected no_healthy_services
    → Unhealthy pool l
scan_none pool [] e = tt
scan_none pool (p ∷ l) e = ground (arith, scan_none pool l)

scan-cases :
    (pool : ServicePool) (l : List Point)
    → ((i : ℕ) × (scan pool l ≡ value i)) ⊎ (scan pool l ≡ unexpected no_healthy_services)
scan-cases pool [] = inr refl
scan-cases pool (p ∷ l) = ground (arith, scan-cases pool l)

module _ (P : Point → Type 0) where
  All-append_parts : (xs ys : List Point) → All P (xs ++ ys) → All P xs × All P ys
  All-append_parts [] ys h = (tt, h)
  All-append_parts (x ∷ xs) ys h = ground (arith, All-append_parts xs ys h.1)

  All-halves :
      (key : ℕ) (ring : List Point)
      → All P (keep_from key ring)
      → All P (keep_below key ring)
      → All P ring
  All-halves key [] h k = tt
  All-halves key (p ∷ ring) h k = ground (arith, All-halves key ring)

All-Any :
    (pool : ServicePool) (j : ℕ) (ring : List Point)
    → Unhealthy pool ring
    → Any (λ p. p.service ≡ j) ring
    → healthy_at pool j ≡ false
All-Any pool j [] h k = absurd k
All-Any pool j (p ∷ ring) h (inl e) = ap (healthy_at pool) (sym e) ∙ h.0
All-Any pool j (p ∷ ring) h (inr k) = All-Any pool j ring h.1 k

healthy_at_outside : (pool : ServicePool) (j : ℕ) → pool_size pool ≤ j → healthy_at pool j ≡ false
healthy_at_outside pool j h = ground (arith, get_elem?-ge pool j h)

not-empty : (ring : List Point) (j : ℕ) → Any (λ p. p.service ≡ j) ring → 0 < length ring
not-empty [] j h = absurd h
not-empty (p ∷ ring) j h = omega arith

module _ (ring : List Point) (pool : ServicePool) (fits : Fits ring (pool_size pool))
    (key : Bytes) where
  select_service-scan :
      0 < pool_size pool
      → select_service ring pool key ≡ returns (scan pool (clockwise ring (hash64 key)))
  unfolding select_service
  select_service-scan h = ground (
    arith,
    not-empty ring 0 (fits.covers.present 0 h),
    select_hash-scan ring pool (hash64 key) fits.ascending fits.covers.inside,
  )

  pub select_service-total :
      ((pool_size pool ≡ 0) × (select_service ring pool key ≡ returns (unexpected pool_empty)))
      ⊎ ((i : ℕ) × (select_service ring pool key ≡ returns (value i)) × HealthyAt pool i)
      ⊎ ((select_service ring pool key ≡ returns (unexpected no_healthy_services))
          × ((j : ℕ) → healthy_at pool j ≡ false))
  select_service-total = elim (dec_lt 0 (pool_size pool)) [
    | no empty ↦ inl (omega arith, unfold select_service in (ground arith))
    | yes h ↦ elim (scan-cases pool (clockwise ring (hash64 key))) [
      | inl (i, e) ↦ inr (
          inl (
            i,
            select_service-scan h ∙ ap returns e,
            healthy_at-HealthyAt pool i (scan-healthy pool _ i e),
          ))
      | inr e ↦ inr (inr (select_service-scan h ∙ ap returns e, none_healthy e))
    ]
  ]
    where
      none_healthy :
          scan pool (clockwise ring (hash64 key)) ≡ unexpected no_healthy_services
          → (j : ℕ) → healthy_at pool j ≡ false
      none_healthy e j = elim (dec_lt j (pool_size pool)) [
        | yes inside ↦
            let (from, below) =
              All-append_parts _ (keep_from (hash64 key) ring) (keep_below (hash64 key) ring)
                (scan_none pool _ e) in
            All-Any pool j ring (All-halves _ (hash64 key) ring from below)
              (fits.covers.present j inside)
        | no outside ↦ healthy_at_outside pool j (omega arith)
      ]

returned : {a b : Selection} → returns a ≡ returns b → a ≡ b
returned e = cc

scan_keeps :
    (pool pool' : ServicePool) (l : List Point) (i : ℕ)
    → ((j : ℕ) → healthy_at pool' j ≡ true → healthy_at pool j ≡ true)
    → healthy_at pool' i ≡ true
    → scan pool l ≡ value i
    → scan pool' l ≡ value i
scan_keeps pool pool' [] i sub h e = absurd (cc)
scan_keeps pool pool' (p ∷ l) i sub h e = elim (Bool-cases (healthy_at pool p.service)) [
  | inl up ↦ let same : p.service ≡ i = ground arith in ground (arith, ap (healthy_at pool') same)
  | inr down ↦ ground (arith, sub p.service, scan_keeps pool pool' l i sub h)
]

-- Affinity: when services fail, only the keys of the services that failed are moved. Let the ring be as
-- the constructor makes it for a pool, and let a second pool of the same size have no healthy service
-- that the first has not. A key that the first pool gives a service that is healthy in the second gets
-- the same service from the second, whatever the counters.
pub select_service_affinity :
    (ring : List Point) (pool pool' : ServicePool) (key : Bytes) (i : ℕ)
    → Fits ring (pool_size pool)
    → pool_size pool' ≡ pool_size pool
    → ((j : ℕ) → healthy_at pool' j ≡ true → healthy_at pool j ≡ true)
    → healthy_at pool' i ≡ true
    → select_service ring pool key ≡ returns (value i)
    → select_service ring pool' key ≡ returns (value i)
select_service_affinity ring pool pool' key i fits size sub h e = elim (dec_lt 0 (pool_size pool)) [
  | yes some_service ↦
      select_service-scan ring pool' (rw size fits) key (omega arith)
      ∙ ap returns (
          scan_keeps pool pool' _ i sub h
            (returned (sym (select_service-scan ring pool fits key some_service) ∙ e)))
  | no empty ↦ absurd (unfold select_service in (ground arith))
]

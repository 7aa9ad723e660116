-- ===== src/Tests/Routing.antt =====
-- The strategies of core/routing on small pools.
use bit_bridge.Prelude.{
  format_nat, ℕ, zero, suc, ◌+◌, ◌%◌, ◌^◌, ◌<◌, ◌≤◌, ◌≡◌, ◌≢◌, refl, List, [], ◌∷◌, codes, true,
  inl, inr, arith, returns, value, throws, hash_collision, some, ◌↔◌, Any,
}
use bit_bridge.State.Pool.{ServicePool}
use bit_bridge.Routing.Strategy.{healthy_at, Selection}
use bit_bridge.Routing.Fnv.{hash64}
use bit_bridge.Routing.Ring.Keys.{vnode_key-injective}
use bit_bridge.Routing.Ring.Sort.{Point, IsAscending, occurrences}
use bit_bridge.Routing.Ring.Points.{pool_points, build_ring_of}
use mathlib.Core.List.{Perm}
use bit_bridge.Routing.Ring.Build.{build_ring_of-throws_iff}
use bit_bridge.Routing.Ring.Members.{Covers, build_ring_of_lem}
use bit_bridge.Routing.Ring.Bound.{lower_bound}
use bit_bridge.Routing.Ring.Select.{select_service, select_hash}
use bit_bridge.Routing.Ring.Walk.{scan, clockwise, select_hash-scan}
use bit_bridge.Routing.Ring.Choice.{Fits, select_service_affinity}
use bit_bridge.Routing.Xoshiro.{Xoshiro, rotate_left, split_mix64, seeded, advance, result, after}
use bit_bridge.Routing.Xoshiro.Live.{IsLive, after-seeded-IsLive}
use bit_bridge.Routing.P2c
use bit_bridge.Routing.P2c.{Distribution, healthy_from}
use bit_bridge.Routing.P2c.Outcomes.{Selected, select_service-cases, select_service_returns}
use bit_bridge.Tests.{state_of, node_a, node_b, two_services, one_down, small_ring}

small_ring-IsAscending : IsAscending small_ring
small_ring-IsAscending = ((omega arith, tt), (tt, tt))

pub small_ring-Fits : Fits small_ring 2
small_ring-Fits = record {
  ascending = small_ring-IsAscending;
  covers = record { inside = (omega arith, (omega arith, tt)); present = present };
}
  where
    present : (j : ℕ) → j < 2 → Any (λ p. p.service ≡ j) small_ring
    present zero h = inr (inl refl)
    present (suc zero) h = inl refl
    present (suc (suc j)) h = absurd (omega arith)

run_one_down : select_service small_ring one_down (codes "10.1.1.1") ≡ returns (value 1)
unfolding select_service lower_bound hash64
run_one_down = refl

run_two_up : select_service small_ring two_services (codes "10.1.1.1") ≡ returns (value 1)
unfolding select_service lower_bound hash64
run_two_up = refl

select_service_affinity_example :
    select_service small_ring one_down (codes "10.1.1.1") ≡ returns (value 1)
select_service_affinity_example =
    select_service_affinity small_ring two_services one_down (codes "10.1.1.1") 1 small_ring-Fits
      refl keeps refl run_two_up
  where
    keeps : (j : ℕ) → healthy_at one_down j ≡ true → healthy_at two_services j ≡ true
    keeps zero h = refl
    keeps (suc zero) h = refl
    keeps (suc (suc j)) h = h

select_hash-scan_example :
    select_hash small_ring one_down (2 ^ 63 + 1)
    ≡ returns (scan one_down (clockwise small_ring (2 ^ 63 + 1)))
select_hash-scan_example =
    select_hash-scan small_ring one_down (2 ^ 63 + 1) small_ring-IsAscending
      (omega arith, (omega arith, tt))

-- Two virtual nodes for each of two services.
four_points :
    pool_points 2 0 two_services
    ≡ record { hash = 16594068187869098039; service = 0 }
      ∷ record { hash = 16594067088357469828; service = 0 }
      ∷ record { hash = 18403359651585666790; service = 1 }
      ∷ record { hash = 18403360751097295001; service = 1 }
      ∷ []
unfolding pool_points hash64 format_nat
four_points = refl

four_distinct : (h : ℕ) → occurrences h (pool_points 2 0 two_services) ≤ 1
four_distinct h = rw four_points (ground arith)

build_ring_of_lem_example :
    (ring : List Point) × (build_ring_of 2 two_services ≡ returns ring)
    × IsAscending ring
    × Perm ring (pool_points 2 0 two_services)
    × Covers ring 2
build_ring_of_lem_example = build_ring_of_lem 1 two_services four_distinct

abbrev same_name : ServicePool
same_name = state_of node_a 0 true ∷ state_of (record node_b { name = codes "a" }) 0 true ∷ []

build_ring_of-throws_iff_example :
    ((i : ℕ) × (build_ring_of 2 same_name ≡ throws (hash_collision i)))
    ↔ ((h : ℕ) × (2 ≤ occurrences h (pool_points 2 0 same_name)))
build_ring_of-throws_iff_example = build_ring_of-throws_iff 2 same_name

-- A distribution by remainder.
pub remainder : Distribution
unfolding after
remainder = record {
  draw = λ max r. (result r % (max + 1), advance r);
  draw-le = λ max r. grind arith;
  draw-after = λ max r. (1, refl);
}

select_service-cases_example : Selected remainder two_services 5 (seeded 1)
select_service-cases_example = select_service-cases remainder two_services 5 (seeded 1)

select_service_returns_example :
    (res : Selection × Xoshiro) × (P2c.select_service remainder 2 (seeded 1) two_services
      ≡ some (returns res))
unfolding remainder seeded advance result healthy_from rotate_left split_mix64
select_service_returns_example = select_service_returns remainder two_services (seeded 1) 1 other
  where
    other : ◌≢◌ {A = ℕ} 0 1
    other e = omega arith

after-seeded-IsLive_example : IsLive (after 1000 (seeded 0))
after-seeded-IsLive_example = after-seeded-IsLive 0 1000

vnode_key-injective_example : (codes "a#1" ≡ codes "a#1") × (◌≡◌ {A = ℕ} 12 12)
unfolding format_nat
vnode_key-injective_example = vnode_key-injective (codes "a#1") (codes "a#1") 12 12 refl

-- ===== src/Routing/Ring/Members.antt =====
-- The ring of core/routing/ConsistentHashStrategy.cpp against the pool it was built from.
use bit_bridge.Prelude.{
  Bytes, ℕ, zero, suc, ◌+◌, ◌≤◌, ◌<◌, ◌≡◌, List, [], ◌∷◌, ◌++◌, All, Any, All-append, inl, inr,
  returns, arith,
}
use bit_bridge.State.Pool.{ServicePool, pool_size}
use mathlib.Core.List.{Perm}
use bit_bridge.Routing.Ring.Sort.{Point, sort, IsAscending, occurrences, All-sort, Any-sort}
use bit_bridge.Routing.Ring.Points.{service_points, pool_points, build_ring_of}
use bit_bridge.Routing.Ring.Build.{build_ring_of-returns, build_ring_of_distinct}

-- Every point names a service of the pool, and every service has a point.
pub record Covers (ring : List Point) (size : ℕ) : Type 0 where
  pub inside : All (λ p. p.service < size) ring
  pub present : (j : ℕ) → j < size → Any (λ p. p.service ≡ j) ring

All-weaken :
    (m n : ℕ) (ring : List Point)
    → m ≤ n
    → All (λ p. p.service < m) ring
    → All (λ p. p.service < n) ring
All-weaken m n [] h a = tt
All-weaken m n (p ∷ ring) h a = (omega arith, All-weaken m n ring h a.1)

service_points-All :
    (name : Bytes) (i v rounds size : ℕ)
    → i < size
    → All (λ p. p.service < size) (service_points name i v rounds)
unfolding service_points
service_points-All name i v zero size h = tt
service_points-All name i v (suc rounds) size h =
    (h, service_points-All name i (v + 1) rounds size h)

pool_points-All :
    (per i : ℕ) (pool : ServicePool) (size : ℕ)
    → i + pool_size pool ≤ size
    → All (λ p. p.service < size) (pool_points per i pool)
unfolding pool_points
pool_points-All per i [] size h = tt
pool_points-All per i (s ∷ pool) size h =
    All-append _ (service_points s.node.name i 0 per) _
      (service_points-All _ i 0 per size (omega arith))
      (pool_points-All per (i + 1) pool size (omega arith))

module _ (P : Point → Type 0) where
  Any-append_right : (xs ys : List Point) → Any P ys → Any P (xs ++ ys)
  Any-append_right [] ys h = h
  Any-append_right (x ∷ xs) ys h = inr (Any-append_right xs ys h)

pool_points-Any :
    (per i : ℕ) (pool : ServicePool) (j k : ℕ)
    → j < pool_size pool
    → i + j ≡ k
    → Any (λ p. p.service ≡ k) (pool_points (suc per) i pool)
unfolding pool_points
pool_points-Any per i [] j k h e = absurd (omega arith)
pool_points-Any per i (s ∷ pool) zero k h e = inl (omega arith)
pool_points-Any per i (s ∷ pool) (suc j) k h e = inr (
    Any-append_right _ (service_points s.node.name i 1 per) _
      (pool_points-Any per (i + 1) pool j k (omega arith) (omega arith)))

-- What a ring with at least one virtual node for each service covers.
pub build_ring_of-Covers :
    (per : ℕ) (pool : ServicePool) {ring : List Point}
    → build_ring_of (suc per) pool ≡ returns ring
    → Covers ring (pool_size pool)
build_ring_of-Covers per pool e =
    let (_, _, same) = build_ring_of-returns (suc per) pool e in
    rw same (record {
      inside = All-sort _ _ (pool_points-All (suc per) 0 pool (pool_size pool) (omega arith));
      present = λ j h. Any-sort _ _ (pool_points-Any per 0 pool j j h (omega arith));
    })

-- The constructor, for any positive number of virtual nodes for each service: if no two of them have the
-- same hash, it returns a ring that holds exactly the virtual nodes, in strictly ascending order of
-- their hashes; every point names a service of the pool, and every service has a point.
pub build_ring_of_lem :
    (per : ℕ) (pool : ServicePool)
    → ((h : ℕ) → occurrences h (pool_points (suc per) 0 pool) ≤ 1)
    → (ring : List Point) × (build_ring_of (suc per) pool ≡ returns ring)
      × IsAscending ring
      × Perm ring (pool_points (suc per) 0 pool)
      × Covers ring (pool_size pool)
build_ring_of_lem per pool distinct =
    let built = build_ring_of_distinct (suc per) pool distinct in
    let (ascending, perm, _) = build_ring_of-returns (suc per) pool built in
    (
      sort (pool_points (suc per) 0 pool),
      built,
      ascending,
      perm,
      build_ring_of-Covers per pool built,
    )

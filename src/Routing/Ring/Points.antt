-- ===== src/Routing/Ring/Points.antt =====
-- The constructor of core/routing/ConsistentHashStrategy.cpp: the points of the ring, and the check
-- for collisions.
use bit_bridge.Prelude.{
  ℕ, zero, suc, ◌+◌, List, [], ◌∷◌, ◌++◌, ◌==◌, if◌then◌else◌, Option, none, some, Bytes,
  format_nat, Outcome, returns, throws, hash_collision,
}
use bit_bridge.State.Pool.{ServicePool}
use bit_bridge.Routing.Fnv.{hash64}
use bit_bridge.Routing.Ring.Sort.{Point, sort}

abbrev pub vnodes_per_service : ℕ
vnodes_per_service = 150

-- `std::format("{}#{}", name, v)`
abbrev pub vnode_key : Bytes → ℕ → Bytes
vnode_key name v = name ++ b'#' ∷ format_nat v

unfoldable pub vnode : Bytes → ℕ → ℕ → Point
vnode name v i = record { hash = hash64 (vnode_key name v); service = i }

-- The inner loop, from `v` on, with the number of rounds that are left.
unfoldable pub service_points : Bytes → ℕ → ℕ → ℕ → List Point
unfolding vnode
service_points name i v zero = []
service_points name i v (suc rounds) = vnode name v i ∷ service_points name i (v + 1) rounds

-- The outer loop, from index `i` on.
unfoldable pub pool_points : ℕ → ℕ → ServicePool → List Point
unfolding service_points
pool_points per i [] = []
pool_points per i (s ∷ pool) = service_points s.node.name i 0 per ++ pool_points per (i + 1) pool

-- The check for collisions, from index `i` on of the ring.
unfoldable pub collision_from : ℕ → List Point → Option ℕ
collision_from i [] = none
collision_from i (p ∷ []) = none
collision_from i (p ∷ q ∷ ring) =
    if q.hash == p.hash then some i else collision_from (i + 1) (q ∷ ring)

abbrev pub or_throw : List Point → Option ℕ → Outcome (List Point)
or_throw ring none = returns ring
or_throw ring (some i) = throws (hash_collision i)

-- The constructor, for any number of virtual nodes.
unfoldable pub build_ring_of : ℕ → ServicePool → Outcome (List Point)
unfolding pool_points collision_from sort
build_ring_of per pool =
    let ring = sort (pool_points per 0 pool) in or_throw ring (collision_from 1 ring)

unfoldable pub build_ring : ServicePool → Outcome (List Point)
build_ring pool = build_ring_of vnodes_per_service pool

-- ===== src/Routing/Ring/Build.antt =====
-- When the constructor of core/routing/ConsistentHashStrategy.cpp succeeds, and what ring it makes.
use mathlib.Core.List.{Perm}
use bit_bridge.Prelude.{
  ℕ, zero, suc, ◌+◌, ◌≤◌, ◌<◌, ◌≡◌, ◌≢◌, ap, ◌∙◌, refl, sym, List, [], ◌∷◌, none, some, ◌==◌, All,
  get_elem?, Outcome, returns, throws, hash_collision, ◌⊎◌, inl, inr, ◌↔◌, Option-cases, Bool-cases,
  arith,
}
use bit_bridge.State.Service.{ServiceState}
use bit_bridge.State.Pool.{ServicePool}
use bit_bridge.Routing.Fnv.{hash64}
use bit_bridge.Routing.Ring.Sort.{
  Point, sort, IsSorted, IsAscending, occurrences, sort-IsSorted, sort-perm, occurrences-sort,
  occurrences-append,
}
use bit_bridge.Routing.Ring.Points.{
  vnodes_per_service, vnode_key, service_points, pool_points, collision_from, or_throw,
  build_ring_of, build_ring,
}

All-lt_of_le :
    (m n : ℕ) (ring : List Point) → m < n → All (λ q. n ≤ q.hash) ring → All (λ q. m < q.hash) ring
All-lt_of_le m n [] h a = tt
All-lt_of_le m n (q ∷ ring) h a = (omega arith, All-lt_of_le m n ring h a.1)

collision_from-IsAscending :
    (i : ℕ) (ring : List Point) → IsSorted ring → collision_from i ring ≡ none → IsAscending ring
unfolding collision_from
collision_from-IsAscending i [] s h = tt
collision_from-IsAscending i (p ∷ []) s h = (tt, tt)
collision_from-IsAscending i (p ∷ q ∷ ring) s h =
    ground
      (arith, collision_from-IsAscending (i + 1) (q ∷ ring) s.1, All-lt_of_le p.hash q.hash ring)

occurrences_below :
    (h : ℕ) (ring : List Point) → All (λ q. h < q.hash) ring → occurrences h ring ≡ 0
occurrences_below h [] a = refl
occurrences_below h (q ∷ ring) a = ground (arith, occurrences_below h ring a.1)

IsAscending-occurrences : (h : ℕ) (ring : List Point) → IsAscending ring → occurrences h ring ≤ 1
IsAscending-occurrences h [] a = omega arith
IsAscending-occurrences h (p ∷ ring) a =
    ground (arith, IsAscending-occurrences h ring a.1, occurrences_below p.hash ring a.0)

-- A reported collision is one.
collision_from-occurrences :
    (i : ℕ) (ring : List Point) (j : ℕ)
    → collision_from i ring ≡ some j
    → (h : ℕ) × (2 ≤ occurrences h ring)
unfolding collision_from
collision_from-occurrences i [] j e = absurd (cc)
collision_from-occurrences i (p ∷ []) j e = absurd (cc)
collision_from-occurrences i (p ∷ q ∷ ring) j e = elim (Bool-cases (q.hash == p.hash)) [
  | inl same ↦ (p.hash, ground arith)
  | inr differ ↦
      let (h, more) = collision_from-occurrences (i + 1) (q ∷ ring) j (ground arith) in
      (h, omega arith)
]

-- Both ends of the constructor.
pub build_ring_of-cases :
    (per : ℕ) (pool : ServicePool)
    → ((build_ring_of per pool ≡ returns (sort (pool_points per 0 pool)))
        × IsAscending (sort (pool_points per 0 pool)))
      ⊎ ((i : ℕ) × (h : ℕ) × (build_ring_of per pool ≡ throws (hash_collision i))
          × (2 ≤ occurrences h (pool_points per 0 pool)))
unfolding build_ring_of
build_ring_of-cases per pool = elim (Option-cases (collision_from 1 ring)) [
  | inl e ↦ inl (rw (e, or_throw), collision_from-IsAscending 1 ring (sort-IsSorted points) e)
  | inr (i, e) ↦
      let (h, more) = collision_from-occurrences 1 ring i e in
      inr (i, h, rw (e, or_throw), omega (arith, occurrences-sort h points))
]
  where
    points : List Point
    points = pool_points per 0 pool

    ring : List Point
    ring = sort points

returns-injective : {r s : List Point} → returns r ≡ returns s → r ≡ s
returns-injective e = cc

returns-not-throws :
    {r : Outcome (List Point)} {ring : List Point} {i : ℕ}
    → r ≡ returns ring
    → r ≢ throws (hash_collision i)
returns-not-throws e h = cc

module _ (per : ℕ) (pool : ServicePool) where
  -- What the constructor returns.
  pub build_ring_of-returns :
      {ring : List Point}
      → build_ring_of per pool ≡ returns ring
      → IsAscending ring
        × Perm ring (pool_points per 0 pool)
        × (ring ≡ sort (pool_points per 0 pool))
  build_ring_of-returns {ring} e = elim (build_ring_of-cases per pool) [
    | inl (r, a) ↦ let same = returns-injective (sym r ∙ e) in rw (← same) (a, sort-perm _, refl)
    | inr (i, h, t, more) ↦ absurd (returns-not-throws e t)
  ]

  -- The constructor throws `HashCollisionError` exactly when two virtual nodes have the same hash.
  pub build_ring_of-throws_iff :
      ((i : ℕ) × (build_ring_of per pool ≡ throws (hash_collision i)))
      ↔ ((h : ℕ) × (2 ≤ occurrences h (pool_points per 0 pool)))
  build_ring_of-throws_iff = elim (build_ring_of-cases per pool) [
    | inl (r, a) ↦ (
      λ t. absurd (returns-not-throws r t.1),
      λ m. absurd (
          omega (
            arith,
            m.1,
            IsAscending-occurrences m.0 (sort (pool_points per 0 pool)) a,
            occurrences-sort m.0 (pool_points per 0 pool),
          )),
    )
    | inr (i, h, t, more) ↦ (λ _. (h, more), λ _. (i, t))
  ]

  -- It returns a ring whenever no two have.
  pub build_ring_of_distinct :
      ((h : ℕ) → occurrences h (pool_points per 0 pool) ≤ 1)
      → build_ring_of per pool ≡ returns (sort (pool_points per 0 pool))
  build_ring_of_distinct d = elim (build_ring_of-cases per pool) [
    | inl (r, a) ↦ r
    | inr (i, h, t, more) ↦ absurd (omega (arith, d h))
  ]

some_name : {s t : ServiceState} → some s ≡ some t → s.node.name ≡ t.node.name
some_name {s} {t} e = let same : s ≡ t = cc in ap (λ u. u.node.name) same

-- A service's first virtual node is among the points.
occurrences_of_name :
    (per i j : ℕ) (pool : ServicePool) (s : ServiceState) (hash : ℕ)
    → get_elem? pool j ≡ some s
    → hash64 (vnode_key s.node.name 0) ≡ hash
    → 1 ≤ occurrences hash (pool_points (suc per) i pool)
unfolding pool_points
occurrences_of_name per i j [] s hash e here = absurd (cc)
occurrences_of_name per i zero (r ∷ pool) s hash e here =
    ground (arith, ap (λ n. hash64 (vnode_key n 0)) (some_name e), here)
occurrences_of_name per i (suc j) (r ∷ pool) s hash e here = omega (
  arith,
  occurrences-append hash (service_points r.node.name i 1 per) (pool_points (suc per) (i + 1) pool),
  occurrences_of_name per (i + 1) j pool s hash e here,
)

occurrences_twice :
    (per i j k : ℕ) (pool : ServicePool) (s t : ServiceState) (hash : ℕ)
    → j < k
    → get_elem? pool j ≡ some s
    → get_elem? pool k ≡ some t
    → hash64 (vnode_key s.node.name 0) ≡ hash
    → hash64 (vnode_key t.node.name 0) ≡ hash
    → 2 ≤ occurrences hash (pool_points (suc per) i pool)
unfolding pool_points
occurrences_twice per i j k [] s t hash h e f es et = absurd (cc)
occurrences_twice per i zero zero (r ∷ pool) s t hash h e f es et = absurd (omega arith)
occurrences_twice per i (suc j) zero (r ∷ pool) s t hash h e f es et = absurd (omega arith)
occurrences_twice per i zero (suc k) (r ∷ pool) s t hash h e f es et = ground (
  arith,
  occurrences-append hash (service_points r.node.name i 1 per) (pool_points (suc per) (i + 1) pool),
  occurrences_of_name per (i + 1) k pool t hash f et,
  ap (λ n. hash64 (vnode_key n 0)) (some_name e),
  es,
)
occurrences_twice per i (suc j) (suc k) (r ∷ pool) s t hash h e f es et = omega (
  arith,
  occurrences-append hash (service_points r.node.name i 1 per) (pool_points (suc per) (i + 1) pool),
  occurrences_twice per (i + 1) j k pool s t hash (omega arith) e f es et,
)

-- Two services of one name make the constructor of the strategy throw `HashCollisionError`, whatever
-- their addresses.
pub build_ring_same_name :
    (pool : ServicePool) (j k : ℕ) (s t : ServiceState)
    → j < k
    → get_elem? pool j ≡ some s
    → get_elem? pool k ≡ some t
    → s.node.name ≡ t.node.name
    → (i : ℕ) × (build_ring pool ≡ throws (hash_collision i))
unfolding build_ring
build_ring_same_name pool j k s t h e f same =
    (build_ring_of-throws_iff vnodes_per_service pool).1 (
      hash64 (vnode_key s.node.name 0),
      occurrences_twice 149 0 j k pool s t _ h e f refl
          (ap (λ n. hash64 (vnode_key n 0)) (sym same)),
    )

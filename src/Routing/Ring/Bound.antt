-- ===== src/Routing/Ring/Bound.antt =====
-- `std::ranges::lower_bound` on the ring, as core/routing/ConsistentHashStrategy.cpp calls it: the
-- halving search of the standard library, by the hash of the points.
use bit_bridge.Prelude.{
  ℕ, zero, suc, ◌+◌, ◌-◌, ◌/◌, ◌≤◌, ◌<◌, ◌≡◌, List, [], ◌∷◌, ltb, ◌==◌, if◌then◌else◌, All, length,
  arith, Bool-cases, inl, inr, ==_iff, ltb→lt,
}
use bit_bridge.Routing.Ring.Sort.{Point, IsAscending}

-- The hash at an index; the search reads inside the ring only.
abbrev pub hash_at : List Point → ℕ → ℕ
hash_at [] i = 0
hash_at (p ∷ ring) zero = p.hash
hash_at (p ∷ ring) (suc i) = hash_at ring i

-- `len` points from `first` on are left.
unfoldable pub bound_loop : ℕ → List Point → ℕ → ℕ → ℕ → ℕ
bound_loop zero ring key first len = first
bound_loop (suc fuel) ring key first len =
    let half = len / 2 in
    let behind = bound_loop fuel ring key (first + half + 1) (len - half - 1) in
    let before = bound_loop fuel ring key first half in
    if len == 0 then first else if ltb (hash_at ring (first + half)) key then behind else before

unfoldable pub lower_bound : List Point → ℕ → ℕ
unfolding bound_loop
lower_bound ring key = bound_loop (length ring) ring key 0 (length ring)

All-hash_at :
    (P : ℕ → Type 0) (ring : List Point) (j : ℕ)
    → All (λ q. P q.hash) ring
    → j < length ring
    → P (hash_at ring j)
All-hash_at P [] j a h = absurd (omega arith)
All-hash_at P (q ∷ ring) zero a h = a.0
All-hash_at P (q ∷ ring) (suc j) a h = All-hash_at P ring j a.1 (omega arith)

hash_at_mono :
    (ring : List Point) (i j : ℕ)
    → IsAscending ring
    → i ≤ j
    → j < length ring
    → hash_at ring i ≤ hash_at ring j
hash_at_mono [] i j a h k = absurd (omega arith)
hash_at_mono (p ∷ ring) zero zero a h k = omega arith
hash_at_mono (p ∷ ring) (suc i) zero a h k = absurd (omega arith)
hash_at_mono (p ∷ ring) zero (suc j) a h k =
    omega (arith, All-hash_at (λ n. p.hash < n) ring j a.0 (omega arith))
hash_at_mono (p ∷ ring) (suc i) (suc j) a h k =
    hash_at_mono ring i j a.1 (omega arith) (omega arith)

-- The points before `r` lie below the key and no point from `r` on does.
abbrev pub Splits : List Point → ℕ → ℕ → Type 0
Splits ring key r =
    (r ≤ length ring)
    × ((i : ℕ) → i < r → hash_at ring i < key)
    × ((i : ℕ) → r ≤ i → i < length ring → key ≤ hash_at ring i)

record Window (ring : List Point) (key first len : ℕ) : Type 0 where
  fits : first + len ≤ length ring
  below : (i : ℕ) → i < first → hash_at ring i < key
  above : (i : ℕ) → first + len ≤ i → i < length ring → key ≤ hash_at ring i

module _ (ring : List Point) (key : ℕ) (ascending : IsAscending ring) where
  Window-done : (first len : ℕ) → Window ring key first len → len ≡ 0 → Splits ring key first
  Window-done first len w e = (omega arith, w.below, λ i h k. w.above i (omega arith) k)

  module _ (first len : ℕ) (w : Window ring key first len) (more : 0 < len) where
    abbrev middle : ℕ
    middle = first + len / 2

    upper : hash_at ring middle < key → Window ring key (middle + 1) (len - len / 2 - 1)
    upper h = record {
      fits = omega arith;
      below =
          λ i k. omega (arith, hash_at_mono ring i middle ascending (omega arith) (omega arith));
      above = λ i k l. w.above i (omega arith) l;
    }

    lower : key ≤ hash_at ring middle → Window ring key first (len / 2)
    lower h = record {
      fits = omega arith;
      below = w.below;
      above = λ i k l. omega (arith, hash_at_mono ring middle i ascending (omega arith) l);
    }

  bound_loop-Splits :
      (fuel first len : ℕ)
      → len ≤ fuel
      → Window ring key first len
      → Splits ring key (bound_loop fuel ring key first len)
  unfolding bound_loop
  bound_loop-Splits zero first len h w = Window-done first len w (omega arith)
  bound_loop-Splits (suc fuel) first len h w = elim (Bool-cases (len == 0)) [
    | inl empty ↦ rw empty (Window-done first len w ((==_iff len 0).0 empty))
    | inr more ↦ rw more (elim (Bool-cases (ltb (hash_at ring (first + len / 2)) key)) [
      | inl below ↦ rw below (
          bound_loop-Splits fuel _ _ (omega arith)
            (upper first len w (ground arith) (ltb→lt _ _ below)))
      | inr above ↦ rw above (
          bound_loop-Splits fuel _ _ (ground arith)
            (lower first len w (ground arith) (ground arith)))
    ])
  ]

  -- On a ring in ascending order the search ends and finds the point where the key belongs: every point
  -- before it has a smaller hash, and none from it on has.
  pub lower_bound-Splits : Splits ring key (lower_bound ring key)
  unfolding lower_bound
  lower_bound-Splits = bound_loop-Splits (length ring) 0 (length ring) (omega arith) (record {
    fits = omega arith;
    below = λ i h. absurd (omega arith);
    above = λ i h k. absurd (omega arith);
  })

-- ===== src/Routing/P2c/Healthy.antt =====
-- The list of healthy services that core/routing/P2CStrategy.cpp collects, and the count of
-- core/state/ServicePool.cpp.
use bit_bridge.Prelude.{
  ℕ, zero, suc, ◌+◌, ◌<◌, ◌≡◌, ◌≢◌, ap, ◌∙◌, List, [], ◌∷◌, true, length, get_elem?, some, arith,
  ◌↔◌, Bool-cases, inl, inr,
}
use bit_bridge.State.Pool.{ServicePool, healthy_count, healthy_count_from}
use bit_bridge.Routing.Strategy.{healthy_at}
use bit_bridge.Routing.P2c.{healthy_from}

healthy_from_sound :
    (i : ℕ) (pool : ServicePool) (k j : ℕ)
    → get_elem? (healthy_from i pool) k ≡ some j
    → (m : ℕ) × (j ≡ i + m) × (healthy_at pool m ≡ true)
unfolding healthy_from
healthy_from_sound i [] k j e = absurd (cc)
healthy_from_sound i (s ∷ pool) zero j e = elim (Bool-cases s.healthy) [
  | inl up ↦ (0, ground arith, up)
  | inr down ↦
      let (m, here, h) = healthy_from_sound (i + 1) pool 0 j (ground arith) in
      (suc m, omega arith, h)
]
healthy_from_sound i (s ∷ pool) (suc k) j e = elim (Bool-cases s.healthy) [
  | inl up ↦
      let (m, here, h) = healthy_from_sound (i + 1) pool k j (ground arith) in
      (suc m, omega arith, h)
  | inr down ↦
      let (m, here, h) = healthy_from_sound (i + 1) pool (suc k) j (ground arith) in
      (suc m, omega arith, h)
]

healthy_from_complete :
    (i : ℕ) (pool : ServicePool) (m : ℕ)
    → healthy_at pool m ≡ true
    → (k : ℕ) × (get_elem? (healthy_from i pool) k ≡ some (i + m))
unfolding healthy_from
healthy_from_complete i [] m h = absurd (cc)
healthy_from_complete i (s ∷ pool) zero h = (0, ground arith)
healthy_from_complete i (s ∷ pool) (suc m) h =
    let (k, e) = healthy_from_complete (i + 1) pool m h in
    let shifted : get_elem? (healthy_from (i + 1) pool) k ≡ some (i + suc m) =
      e ∙ ap some (omega arith) in
    elim (Bool-cases s.healthy) [ inl up ↦ (suc k, ground arith) | inr down ↦ (k, ground arith) ]

healthy_from-increasing :
    (i : ℕ) (pool : ServicePool) (k l x y : ℕ)
    → k < l
    → get_elem? (healthy_from i pool) k ≡ some x
    → get_elem? (healthy_from i pool) l ≡ some y
    → x < y
unfolding healthy_from
healthy_from-increasing i [] k l x y h e f = absurd (cc)
healthy_from-increasing i (s ∷ pool) k zero x y h e f = absurd (omega arith)
healthy_from-increasing i (s ∷ pool) zero (suc l) x y h e f = elim (Bool-cases s.healthy) [
  | inl up ↦ ground (arith, healthy_from_sound (i + 1) pool l y)
  | inr down ↦ ground (arith, healthy_from-increasing (i + 1) pool 0 (suc l) x y)
]
healthy_from-increasing i (s ∷ pool) (suc k) (suc l) x y h e f = ground (
  arith,
  healthy_from-increasing (i + 1) pool k l x y,
  healthy_from-increasing (i + 1) pool (suc k) (suc l) x y,
)

module _ (pool : ServicePool) where
  abbrev pub healthy_indices : List ℕ
  healthy_indices = healthy_from 0 pool

  -- `SelectService` collects the indices of the healthy services: those of the pool's services whose
  -- flag is set, and no other.
  pub healthy_indices_iff :
      (j : ℕ) → ((k : ℕ) × (get_elem? healthy_indices k ≡ some j)) ↔ (healthy_at pool j ≡ true)
  healthy_indices_iff j =
      (sound, λ h. let (k, e) = healthy_from_complete 0 pool j h in (k, e ∙ ap some (omega arith)))
    where
      sound : ((k : ℕ) × (get_elem? healthy_indices k ≡ some j)) → healthy_at pool j ≡ true
      sound (k, e) =
          let (m, same, h) = healthy_from_sound 0 pool k j e in
          ap (healthy_at pool) (omega arith) ∙ h

  pub healthy_indices-distinct :
      (k l x y : ℕ)
      → k ≢ l
      → get_elem? healthy_indices k ≡ some x
      → get_elem? healthy_indices l ≡ some y
      → x ≢ y
  healthy_indices-distinct k l x y h e f =
      ground (arith, healthy_from-increasing 0 pool k l x y, healthy_from-increasing 0 pool l k y x)

pub length-healthy_from :
    (i n : ℕ) (pool : ServicePool) → healthy_count_from n pool ≡ n + length (healthy_from i pool)
unfolding healthy_from healthy_count_from
length-healthy_from i n [] = omega arith
length-healthy_from i n (s ∷ pool) =
    ground (arith, length-healthy_from (i + 1) n pool, length-healthy_from (i + 1) (n + 1) pool)

-- `GetHealthyCount` is the number of indices that `SelectService` collects.
pub healthy_count-length : (pool : ServicePool) → healthy_count pool ≡ length (healthy_indices pool)
unfolding healthy_count
healthy_count-length pool = length-healthy_from 0 0 pool ∙ omega arith

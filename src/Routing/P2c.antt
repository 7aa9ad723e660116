-- ===== src/Routing/P2c.antt =====
-- core/routing/P2CStrategy.{hpp,cpp}: the better of two random choices.
pub mod Healthy
pub mod Choice
pub mod Outcomes
use bit_bridge.Prelude.{
  ℕ, zero, suc, ◌+◌, ◌-◌, ◌≤◌, ◌≡◌, ◌==◌, leb, if◌then◌else◌, List, [], ◌∷◌, length, at, Bool,
  Option, some, none, Outcome, returns, throws, ◌>>=◌, value, unexpected,
}
use bit_bridge.State.Pool.{ServicePool, pool_size, get_service}
use bit_bridge.Routing.Strategy.{no_healthy_services, pool_empty, Selection}
use bit_bridge.Routing.Xoshiro.{Xoshiro, after, seeded}

-- `std::uniform_int_distribution<size_t>(0, max)` on the generator: a number of the range, by some
-- calls of the generator. How it makes the number is left to the standard library.
pub record Distribution : Type 0 where
  pub draw : ℕ → Xoshiro → ℕ × Xoshiro
  pub draw-le : (max : ℕ) (r : Xoshiro) → (draw max r).0 ≤ max
  pub draw-after : (max : ℕ) (r : Xoshiro) → (n : ℕ) × ((draw max r).1 ≡ after n r)

-- The first loop of `SelectService`, from index `i` on.
unfoldable pub healthy_from : ℕ → ServicePool → List ℕ
healthy_from i [] = []
healthy_from i (s ∷ pool) =
    if s.healthy then i ∷ healthy_from (i + 1) pool else healthy_from (i + 1) pool

-- The constructors: from a seed, or from a value of the random device. A copy is seeded afresh, and a
-- moved strategy keeps its generator.
unfoldable pub make : ℕ → Xoshiro
make seed = seeded seed

unfoldable pub copy : ℕ → Xoshiro → Xoshiro
copy device other = seeded device

unfoldable pub move : Xoshiro → Xoshiro
move other = other

-- The assignments; the flag is `this == &other`.
unfoldable pub assign_copy : Bool → ℕ → Xoshiro → Xoshiro → Xoshiro
assign_copy same device this other = if same then this else seeded device

unfoldable pub assign_move : Bool → Xoshiro → Xoshiro → Xoshiro
assign_move same this other = if same then this else other

-- The lighter of two services, the first if they are alike.
unfoldable pub lighter : ServicePool → ℕ → ℕ → Outcome Selection
lighter pool i j = do
  s ← get_service pool i
  t ← get_service pool j
  if leb s.active_connections t.active_connections then returns (value i) else returns (value j)

module _ (dist : Distribution) where
  open dist use {draw}

  -- `while (b == a) b = dist(m_rng)` for a number of tests of the condition; `none` if it still holds.
  unfoldable pub redraw : ℕ → ℕ → ℕ → ℕ → Xoshiro → Option (ℕ × Xoshiro)
  redraw zero max a b r = none
  redraw (suc fuel) max a b r =
      let again = redraw fuel max a (draw max r).0 (draw max r).1 in
      if b == a then again else some (b, r)

  -- The choice between two or more healthy services.
  unfoldable pub choose :
      ℕ → Xoshiro → ServicePool → List ℕ → Option (Outcome (Selection × Xoshiro))
  choose fuel r pool healthy =
      let max = length healthy - 1 in
      let (a, r1) = draw max r in
      let (b0, r2) = draw max r1 in
      elim (redraw fuel max a b0 r2) [
        | none ↦ none
        | some (b, r3) ↦
            some (do
              i ← at healthy a
              j ← at healthy b
              chosen ← lighter pool i j
              returns (chosen, r3))
      ]

  unfoldable pub select_healthy :
      ℕ → Xoshiro → ServicePool → List ℕ → Option (Outcome (Selection × Xoshiro))
  select_healthy fuel r pool [] = some (returns (unexpected no_healthy_services, r))
  select_healthy fuel r pool (i ∷ []) = some (returns (value i, r))
  select_healthy fuel r pool (i ∷ j ∷ healthy) = choose fuel r pool (i ∷ j ∷ healthy)

  unfoldable pub select_service : ℕ → Xoshiro → ServicePool → Option (Outcome (Selection × Xoshiro))
  unfolding select_healthy
  select_service fuel r pool =
      if pool_size pool == 0
      then some (returns (unexpected pool_empty, r))
      else select_healthy fuel r pool (healthy_from 0 pool)

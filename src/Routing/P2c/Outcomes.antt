-- ===== src/Routing/P2c/Outcomes.antt =====
-- `SelectService` of core/routing/P2CStrategy.cpp on every branch, and when it returns.
use bit_bridge.Prelude.{
  ℕ, zero, suc, ◌≤◌, ◌<◌, ◌≡◌, ◌≢◌, refl, sym, ◌∙◌, List, [], ◌∷◌, false, length, get_elem?, some,
  none, arith, Bool-cases, inl, inr, ◌⊎◌, lt-get_elem?, dec_lt, returns, value, unexpected,
}
use bit_bridge.State.Pool.{ServicePool, pool_size, healthy_count}
use bit_bridge.Routing.Strategy.{no_healthy_services, pool_empty, Selection, HealthyAt, healthy_at}
use bit_bridge.Routing.Xoshiro.{Xoshiro}
use bit_bridge.Routing.P2c.{Distribution, healthy_from, choose, select_healthy, select_service}
use bit_bridge.Routing.P2c.Healthy.{healthy_count-length, healthy_indices, healthy_indices_iff}
use bit_bridge.Routing.P2c.Choice.{
  Lighter, draw_at, redraw_ends, max, first, second, r2, healthy-HealthyAt, chosen, choose-cases,
}

module _ (dist : Distribution) (pool : ServicePool) (fuel : ℕ) (r : Xoshiro) where
  select_healthy-choose :
      (healthy : List ℕ)
      → 2 ≤ length healthy
      → select_healthy dist fuel r pool healthy ≡ choose dist fuel r pool healthy
  unfolding select_healthy
  select_healthy-choose [] h = absurd (omega arith)
  select_healthy-choose (i ∷ []) h = absurd (omega arith)
  select_healthy-choose (i ∷ j ∷ healthy) h = refl

  select_healthy_none :
      (healthy : List ℕ)
      → length healthy ≡ 0
      → select_healthy dist fuel r pool healthy ≡ some (returns (unexpected no_healthy_services, r))
  unfolding select_healthy
  select_healthy_none [] h = refl
  select_healthy_none (i ∷ healthy) h = absurd (omega arith)

  select_healthy_one :
      (healthy : List ℕ)
      → length healthy ≡ 1
      → (i : ℕ) × (get_elem? healthy 0 ≡ some i)
        × (select_healthy dist fuel r pool healthy ≡ some (returns (value i, r)))
  unfolding select_healthy
  select_healthy_one [] h = absurd (omega arith)
  select_healthy_one (i ∷ []) h = (i, refl, refl)
  select_healthy_one (i ∷ j ∷ healthy) h = absurd (omega arith)

  select-healthy :
      0 < pool_size pool
      → select_service dist fuel r pool ≡ select_healthy dist fuel r pool (healthy_indices pool)
  unfolding select_service
  select-healthy some_service = ground arith

  pub select-two :
      0 < pool_size pool
      → 2 ≤ length (healthy_indices pool)
      → select_service dist fuel r pool ≡ choose dist fuel r pool (healthy_indices pool)
  select-two some_service two =
      select-healthy some_service ∙ select_healthy-choose (healthy_indices pool) two

  none_healthy : healthy_count pool ≡ 0 → (j : ℕ) → healthy_at pool j ≡ false
  none_healthy h j = elim (Bool-cases (healthy_at pool j)) [
    | inr down ↦ down
    | inl up ↦
        let (k, e) = (healthy_indices_iff pool j).1 up in
        absurd (omega (arith, healthy_count-length pool, lt-get_elem? (healthy_indices pool) k e))
  ]

  -- The ways in which a call of `SelectService` can go.
  abbrev pub Selected : Type 0
  Selected =
      ((pool_size pool ≡ 0)
        × (select_service dist fuel r pool ≡ some (returns (unexpected pool_empty, r))))
      ⊎ ((0 < pool_size pool)
          × ((j : ℕ) → healthy_at pool j ≡ false)
          × (select_service dist fuel r pool ≡ some (returns (unexpected no_healthy_services, r))))
      ⊎ ((healthy_count pool ≡ 1)
          × ((i : ℕ) × (select_service dist fuel r pool ≡ some (returns (value i, r)))
              × HealthyAt pool i))
      ⊎ ((2 ≤ healthy_count pool)
          × ((select_service dist fuel r pool ≡ none)
              ⊎ ((i : ℕ) × (r' : Xoshiro) × (select_service dist fuel r pool
                    ≡ some (returns (value i, r')))
                  × Lighter pool i)))

  -- `SelectService` on every branch. It never throws. An empty pool gives `PoolEmpty`; a pool without
  -- a healthy service gives `NoHealthyServices`; a single healthy service is returned without a draw;
  -- among two or more, if the draws end, the index of a healthy service comes back, and there is
  -- another healthy one with at least as many connections.
  pub select_service-cases : Selected
  select_service-cases = elim (dec_lt 0 (pool_size pool)) [
    | no empty ↦ inl (omega arith, unfold select_service in (ground arith))
    | yes some_service ↦ inr (elim (count_cases (healthy_count pool)) [
      | inl none_up ↦ inl (
        some_service,
        none_healthy none_up,
        select-healthy some_service ∙ select_healthy_none _ (sym counted ∙ none_up),
      )
      | inr (inl one_up) ↦
          let (i, e, s) = select_healthy_one _ (sym counted ∙ one_up) in
          inr (
            inl (one_up, (i, select-healthy some_service ∙ s, healthy-HealthyAt dist pool r 0 i e)))
      | inr (inr two_up) ↦
          let two : 2 ≤ length (healthy_indices pool) = omega (arith, counted) in
          let step = select-two some_service two in
          inr (
            inr (
              two_up,
              elim (choose-cases dist pool r fuel two) [
                | inl e ↦ inl (step ∙ e)
                | inr (i, r', e, light) ↦ inr (i, r', step ∙ e, light)
              ],
            ))
    ])
  ]
    where
      counted : healthy_count pool ≡ length (healthy_indices pool)
      counted = healthy_count-length pool

      count_cases : (n : ℕ) → (n ≡ 0) ⊎ (n ≡ 1) ⊎ (2 ≤ n)
      count_cases zero = inl refl
      count_cases (suc zero) = inr (inl refl)
      count_cases (suc (suc n)) = inr (inr (omega arith))

-- A pool with a healthy service is not empty.
occupied : (pool : ServicePool) → 2 ≤ length (healthy_indices pool) → 0 < pool_size pool
unfolding healthy_from
occupied [] h = absurd (omega arith)
occupied (s ∷ pool) h = omega arith

-- The loop that draws the second number ends, and the call returns, once one of the draws differs from
-- the first number: if the number drawn `k` rounds later does, `k + 1` tests of the loop suffice.
pub select_service_returns :
    (dist : Distribution) (pool : ServicePool) (r : Xoshiro) (k : ℕ)
    → draw_at dist k (max dist pool r) (second dist pool r) (r2 dist pool r) ≢ first dist pool r
    → (res : Selection × Xoshiro) × (select_service dist (suc k) r pool ≡ some (returns res))
select_service_returns dist pool r k h = elim (select_service-cases dist pool (suc k) r) [
  | inl (_, e) ↦ (_, e)
  | inr (inl (_, _, e)) ↦ (_, e)
  | inr (inr (inl (_, (_, e, _)))) ↦ (_, e)
  | inr (inr (inr (two, inr (_, _, e, _)))) ↦ (_, e)
  | inr (inr (inr (two, inl stuck))) ↦
      let ((b, r3), drawn) =
        redraw_ends dist k (max dist pool r) (first dist pool r) (second dist pool r)
          (r2 dist pool r) h in
      let many : 2 ≤ length (healthy_indices pool) = omega (arith, healthy_count-length pool) in
      let (i, e, light) = chosen dist pool r (suc k) b r3 many drawn in
      (_, select-two dist pool (suc k) r (occupied pool many) many ∙ e)
]

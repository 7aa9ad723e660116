-- ===== src/Routing/P2c/Choice.antt =====
-- What `SelectService` of core/routing/P2CStrategy.cpp chooses.
use bit_bridge.Prelude.{
  ℕ, zero, suc, ◌-◌, ◌≤◌, ◌≡◌, ◌≢◌, sym, true, length, get_elem?, get_elem?-lt, some, none, arith,
  Bool-cases, inl, inr, ◌⊎◌, Option-cases, leb, leb→le, ◌==◌, returns, value,
}
use bit_bridge.State.Service.{ServiceState}
use bit_bridge.State.Pool.{ServicePool}
use bit_bridge.Routing.Strategy.{HealthyAt, healthy_at-HealthyAt}
use bit_bridge.Routing.Xoshiro.{Xoshiro}
use bit_bridge.Routing.P2c.{Distribution, lighter, redraw, choose}
use bit_bridge.Routing.P2c.Healthy.{healthy_indices, healthy_indices_iff, healthy_indices-distinct}

-- A healthy service, and another healthy one with at least as many connections.
pub record Lighter (pool : ServicePool) (i : ℕ) : Type 0 where
  pub other : ℕ
  pub chosen_state : ServiceState
  pub other_state : ServiceState
  pub chosen_at : get_elem? pool i ≡ some chosen_state
  pub other_at : get_elem? pool other ≡ some other_state
  pub chosen_healthy : chosen_state.healthy ≡ true
  pub other_healthy : other_state.healthy ≡ true
  pub distinct : i ≢ other
  pub lighter_le : chosen_state.active_connections ≤ other_state.active_connections

lighter-Lighter :
    (pool : ServicePool) (i j : ℕ)
    → i ≢ j
    → HealthyAt pool i
    → HealthyAt pool j
    → (k : ℕ) × (lighter pool i j ≡ returns (value k)) × Lighter pool k
unfolding lighter
lighter-Lighter pool i j ne (s, es, hs) (t, et, ht) =
    elim (Bool-cases (leb s.active_connections t.active_connections)) [
      | inl le ↦ (
        i,
        ground arith,
        record {
          other = j;
          chosen_state = s;
          other_state = t;
          chosen_at = es;
          other_at = et;
          chosen_healthy = hs;
          other_healthy = ht;
          distinct = ne;
          lighter_le = leb→le _ _ le;
        },
      )
      | inr gt ↦ (
        j,
        ground arith,
        record {
          other = i;
          chosen_state = t;
          other_state = s;
          chosen_at = et;
          other_at = es;
          chosen_healthy = ht;
          other_healthy = hs;
          distinct = λ e. ne (sym e);
          lighter_le = ground arith;
        },
      )
    ]

module _ (dist : Distribution) where
  open dist use {draw, draw-le}

  -- The number that stands in `b` after `k` more draws.
  abbrev pub draw_at : ℕ → ℕ → ℕ → Xoshiro → ℕ
  draw_at zero max b r = b
  draw_at (suc k) max b r = draw_at k max (draw max r).0 (draw max r).1

  redraw-differs :
      (fuel max a b : ℕ) (r : Xoshiro) (c : ℕ) (r' : Xoshiro)
      → b ≤ max
      → redraw dist fuel max a b r ≡ some (c, r')
      → (c ≤ max) × (c ≢ a)
  unfolding redraw
  redraw-differs zero max a b r c r' h e = absurd (cc)
  redraw-differs (suc fuel) max a b r c r' h e =
      ground (arith, redraw-differs fuel max a (draw max r).0 (draw max r).1 c r' (draw-le max r))

  pub redraw_ends :
      (k max a b : ℕ) (r : Xoshiro)
      → draw_at k max b r ≢ a
      → (res : ℕ × Xoshiro) × (redraw dist (suc k) max a b r ≡ some res)
  unfolding redraw
  redraw_ends zero max a b r h = ((b, r), ground arith)
  redraw_ends (suc k) max a b r h = elim (Bool-cases (b == a)) [
    | inl same ↦ rw same (redraw_ends k max a (draw max r).0 (draw max r).1 h)
    | inr differ ↦ ((b, r), ground arith)
  ]

  module _ (pool : ServicePool) (r : Xoshiro) where
    abbrev pub max : ℕ
    max = length (healthy_indices pool) - 1

    abbrev pub first : ℕ
    first = (draw max r).0

    abbrev pub r1 : Xoshiro
    r1 = (draw max r).1

    abbrev pub second : ℕ
    second = (draw max r1).0

    abbrev pub r2 : Xoshiro
    r2 = (draw max r1).1

    pub healthy-HealthyAt :
        (k j : ℕ) → get_elem? (healthy_indices pool) k ≡ some j → HealthyAt pool j
    healthy-HealthyAt k j e = healthy_at-HealthyAt pool j ((healthy_indices_iff pool j).0 (k, e))

    module _ (fuel : ℕ) where
      pub chosen :
          (b : ℕ) (r3 : Xoshiro)
          → 2 ≤ length (healthy_indices pool)
          → redraw dist fuel max first second r2 ≡ some (b, r3)
          → (i : ℕ) × (choose dist fuel r pool (healthy_indices pool)
              ≡ some (returns (value i, r3)))
            × Lighter pool i
      unfolding choose
      chosen b r3 two e =
          let (bound, ne) = redraw-differs fuel max first second r2 b r3 (draw-le max r1) e in
          let (i, ei) = get_elem?-lt (healthy_indices pool) first (omega (arith, draw-le max r)) in
          let (j, ej) = get_elem?-lt (healthy_indices pool) b (omega arith) in
          let distinct = healthy_indices-distinct pool first b i j (λ q. ne (sym q)) ei ej in
          let (k, ek, light) =
            lighter-Lighter pool i j distinct (healthy-HealthyAt first i ei)
              (healthy-HealthyAt b j ej) in
          (k, ground arith, light)

      pub choose-cases :
          2 ≤ length (healthy_indices pool)
          → (choose dist fuel r pool (healthy_indices pool) ≡ none)
            ⊎ ((i : ℕ) × (r3 : Xoshiro) × (choose dist fuel r pool (healthy_indices pool)
                  ≡ some (returns (value i, r3)))
                × Lighter pool i)
      choose-cases two = elim (Option-cases (redraw dist fuel max first second r2)) [
        | inl e ↦ inl (unfold choose in (ground arith))
        | inr ((b, r3), e) ↦ let (i, c, light) = chosen b r3 two e in inr (i, r3, c, light)
      ]

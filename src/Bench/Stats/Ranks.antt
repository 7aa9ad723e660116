-- ===== src/Bench/Stats/Ranks.antt =====
-- The counts and the percentiles of `ComputeStats` of bench/main.cpp.
use mathlib.Core.List.{append_assoc, append-nil}
use bit_bridge.Prelude.{
  ℕ, suc, ◌+◌, ◌-◌, ◌*◌, ◌/◌, ◌≤◌, ◌<◌, ◌≡◌, ◌⊎◌, refl, ap, ◌∙◌, true, if◌then◌else◌, List, [], ◌∷◌,
  ◌++◌, length, get_elem?, get_elem?-lt, All, Bytes, List-cases, some, returns, inl, inr, arith,
}
use bit_bridge.Bench.Load.{ConnResult}
use bit_bridge.Bench.Stats.{
  Clock, AlgoResult, LoadResult, sort, tally, front, back, with_times, with_counts, compute_stats,
}
use bit_bridge.Bench.Stats.Sort.{
  IsSorted, not_above, leq_refl, All-sort, sort-IsSorted, length-sort, not_above-sort,
  get_elem?-leq, not_above-get_elem?,
}

module _ (clock : Clock) where
  open clock use {Time, zero_ms, leq, mean}

  -- The times of the connections that ended well, and the number of the others.
  abbrev pub good_times : List (ConnResult Time) → List Time
  good_times [] = []
  good_times (c ∷ conns) = let rest = good_times conns in if c.ok then c.ms ∷ rest else rest

  abbrev pub bad_count : List (ConnResult Time) → ℕ
  bad_count [] = 0
  bad_count (c ∷ conns) = (if c.ok then 0 else 1) + bad_count conns

  good_bad :
      (conns : List (ConnResult Time)) → length (good_times conns) + bad_count conns ≡ length conns
  good_bad [] = refl
  good_bad (c ∷ conns) = ground (arith, good_bad conns)

  tally_lem :
      (conns : List (ConnResult Time)) (completed errors : ℕ) (latencies : List Time)
      → tally clock conns completed errors latencies ≡ (
        completed + length (good_times conns),
        errors + bad_count conns,
        latencies ++ good_times conns,
      )
  unfolding tally
  tally_lem [] completed errors latencies = ground (arith, append-nil latencies)
  tally_lem (c ∷ conns) completed errors latencies =
      let good = tally_lem conns (completed + 1) errors (latencies ++ c.ms ∷ []) in
      let bad = tally_lem conns completed (errors + 1) latencies in
      ground (arith, good, bad, append_assoc latencies (c.ms ∷ []) (good_times conns))

  get_elem?-front : (xs : List Time) → 0 < length xs → get_elem? xs 0 ≡ some (front clock xs)
  get_elem?-front [] h = absurd (omega arith)
  get_elem?-front (x ∷ xs) h = refl

  get_elem?-back :
      (xs : List Time) → 0 < length xs → get_elem? xs (length xs - 1) ≡ some (back clock xs)
  get_elem?-back [] h = absurd (omega arith)
  get_elem?-back (x ∷ []) h = ground arith
  get_elem?-back (x ∷ y ∷ xs) h =
      let place : length (x ∷ y ∷ xs) - 1 ≡ suc (length (y ∷ xs) - 1) = omega arith in
      ap (get_elem? (x ∷ y ∷ xs)) place ∙ get_elem?-back (y ∷ xs) (omega arith)

  -- The times of a result are those of the latencies: the least and the greatest of them, and percentiles
  -- that the named part of the latencies, and one more, does not exceed.
  pub record IsSummary (r : AlgoResult Time) (latencies : List Time) : Type 0 where
    pub least : All (λ t. leq r.min_ms t ≡ true) latencies
    pub ordered :
        (leq r.min_ms r.p50_ms ≡ true)
        × (leq r.p50_ms r.p95_ms ≡ true)
        × (leq r.p95_ms r.p99_ms ≡ true)
        × (leq r.p99_ms r.max_ms ≡ true)
    pub rank_50 : length latencies * 50 / 100 < not_above clock r.p50_ms latencies
    pub rank_95 : length latencies * 95 / 100 < not_above clock r.p95_ms latencies
    pub rank_99 : length latencies * 99 / 100 < not_above clock r.p99_ms latencies
    pub rank_max : length latencies ≤ not_above clock r.max_ms latencies

  abbrev pub NoTimes : AlgoResult Time → Type 0
  NoTimes r =
      (r.min_ms ≡ zero_ms)
      × (r.avg_ms ≡ zero_ms)
      × (r.p50_ms ≡ zero_ms)
      × (r.p95_ms ≡ zero_ms)
      × (r.p99_ms ≡ zero_ms)
      × (r.max_ms ≡ zero_ms)

  above_front : (xs : List Time) → IsSorted clock xs → All (λ t. leq (front clock xs) t ≡ true) xs
  above_front [] s = tt
  above_front (x ∷ xs) s = (leq_refl clock x, s.0)

  with_times_lem :
      (r : AlgoResult Time) (latencies : List Time)
      → 0 < length latencies
      → (s : AlgoResult Time) × (with_times clock r (sort clock latencies) ≡ returns s)
        × IsSummary s latencies
        × (s.completed ≡ r.completed)
        × (s.errors ≡ r.errors)
        × (s.peak_connections ≡ r.peak_connections)
  with_times_lem r latencies h =
      let xs = sort clock latencies in
      let n = length xs in
      let long : 0 < n = omega (arith, length-sort clock latencies) in
      let sorted = sort-IsSorted clock latencies in
      let (p50, at_50) = get_elem?-lt xs (n * 50 / 100) (omega arith) in
      let (p95, at_95) = get_elem?-lt xs (n * 95 / 100) (omega arith) in
      let (p99, at_99) = get_elem?-lt xs (n * 99 / 100) (omega arith) in
      let first = get_elem?-front xs long in
      let last = get_elem?-back xs long in
      let same = not_above-sort clock in
      (
        record r {
          min_ms = front clock xs;
          max_ms = back clock xs;
          avg_ms = mean xs;
          p50_ms = p50;
          p95_ms = p95;
          p99_ms = p99;
        },
        unfold with_times in (ground arith),
        record {
          least = All-sort clock _ latencies (above_front xs sorted);
          ordered = (
            get_elem?-leq clock xs 0 (n * 50 / 100) sorted (omega arith) first at_50,
            get_elem?-leq clock xs (n * 50 / 100) (n * 95 / 100) sorted (omega arith) at_50 at_95,
            get_elem?-leq clock xs (n * 95 / 100) (n * 99 / 100) sorted (omega arith) at_95 at_99,
            get_elem?-leq clock xs (n * 99 / 100) (n - 1) sorted (omega arith) at_99 last,
          );
          rank_50 = omega (
            arith,
            length-sort clock latencies,
            same p50 latencies,
            not_above-get_elem? clock xs (n * 50 / 100) sorted at_50,
          );
          rank_95 = omega (
            arith,
            length-sort clock latencies,
            same p95 latencies,
            not_above-get_elem? clock xs (n * 95 / 100) sorted at_95,
          );
          rank_99 = omega (
            arith,
            length-sort clock latencies,
            same p99 latencies,
            not_above-get_elem? clock xs (n * 99 / 100) sorted at_99,
          );
          rank_max = omega (
            arith,
            length-sort clock latencies,
            same (back clock xs) latencies,
            not_above-get_elem? clock xs (n - 1) sorted last,
          );
        },
        refl,
        refl,
        refl,
      )

  -- `ComputeStats` always gives a result. Every connection is counted once, as completed or as an error; the
  -- peak is that of the load. Without a completed connection the least, mean and
  -- greatest time and the three percentiles are zero. Otherwise no index is out of
  -- range, the least time is not above any latency, the least, 50th, 95th and 99th percentile and greatest ascend,
  -- more than 50, 95 and 99 percent of the latencies, rounded down, are not above those percentiles, and none
  -- is above the greatest.
  pub compute_stats_lem :
      (algo : Bytes) (load : LoadResult Time) (total_wall_ms : Time) (backend_count : ℕ)
      → (r : AlgoResult Time) × (compute_stats clock algo load total_wall_ms backend_count
          ≡ returns r)
        × (r.completed ≡ length (good_times load.conns))
        × (r.completed + r.errors ≡ length load.conns)
        × (r.peak_connections ≡ load.peak_connections)
        × ((good_times load.conns ≡ []) × NoTimes r ⊎ IsSummary r (good_times load.conns))
  compute_stats_lem algo load total_wall_ms backend_count =
      let times = good_times load.conns in
      let bad = bad_count load.conns in
      let counts = with_counts clock algo load total_wall_ms backend_count (length times) bad in
      let tallied = tally_lem load.conns 0 0 [] in
      let every = good_bad load.conns in
      elim (List-cases times) [
        | inl nothing ↦ (
          counts,
          unfold compute_stats in (ground arith),
          unfold with_counts in refl,
          unfold with_counts in (omega arith),
          unfold with_counts in refl,
          inl (nothing, unfold with_counts in (refl, refl, refl, refl, refl, refl)),
        )
        | inr (x, xs, some_time) ↦
            let (s, timed, summary, completed, errors, peak) =
              with_times_lem counts times (ground arith) in
            (
              s,
              unfold compute_stats in (ground arith),
              completed ∙ unfold with_counts in refl,
              unfold with_counts in (omega (arith, completed, errors)),
              peak ∙ unfold with_counts in refl,
              inr summary,
            )
      ]

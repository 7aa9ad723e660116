-- ===== src/Bench/Stats.antt =====
-- `ComputeStats` of bench/main.cpp.
pub mod Sort
pub mod Ranks
use bit_bridge.Prelude.{
  ℕ, ◌+◌, ◌-◌, ◌*◌, ◌/◌, ◌≡◌, Bool, true, false, not, if◌then◌else◌, ltb, List, [], ◌∷◌, ◌++◌,
  Bytes, length, at, Outcome, returns, ◌>>=◌,
}
use bit_bridge.Bench.Load.{ConnResult}

-- What `ComputeStats` does with `double`: the order of the measured times, which are no NaN; the mean of
-- times; and completed connections per second, cut to an `int`.
pub record Clock : Type 1 where
  pub Time : Type 0
  pub zero_ms : Time
  pub leq : Time → Time → Bool
  pub mean : List Time → Time
  pub rate : ℕ → Time → ℕ
  pub leq_total : (a b : Time) → leq a b ≡ false → leq b a ≡ true
  pub leq_trans : (a b c : Time) → leq a b ≡ true → leq b c ≡ true → leq a c ≡ true

pub record AlgoResult (Time : Type 0) : Type 0 where
  pub algo : Bytes
  pub completed : ℕ
  pub errors : ℕ
  pub throughput : ℕ
  pub peak_connections : ℕ
  pub backend_count : ℕ
  pub bytes_received : ℕ
  pub avg_ms : Time
  pub min_ms : Time
  pub p50_ms : Time
  pub p95_ms : Time
  pub p99_ms : Time
  pub max_ms : Time

-- `RunLoad`'s result.
pub record LoadResult (Time : Type 0) : Type 0 where
  pub conns : List (ConnResult Time)
  pub peak_connections : ℕ
  pub bytes_received : ℕ

-- The percentage of errors that `PrintResult`, `SaveBaseline` and `main` show.
unfoldable pub err_pct : ℕ → ℕ → ℕ
err_pct completed errors =
    if ltb 0 (completed + errors) then errors * 100 / (completed + errors) else 0

module _ (clock : Clock) where
  open clock use {Time, zero_ms, leq, mean, rate}

  -- `std::ranges::sort`
  unfoldable pub insert : Time → List Time → List Time
  insert t [] = t ∷ []
  insert t (x ∷ xs) = let rest = insert t xs in if leq t x then t ∷ x ∷ xs else x ∷ rest

  unfoldable pub sort : List Time → List Time
  unfolding insert
  sort [] = []
  sort (x ∷ xs) = insert x (sort xs)

  -- The loop over the connections: the completed ones, the errors and the latencies.
  unfoldable pub tally : List (ConnResult Time) → ℕ → ℕ → List Time → ℕ × ℕ × List Time
  tally [] completed errors latencies = (completed, errors, latencies)
  tally (c ∷ conns) completed errors latencies =
      let good = tally conns (completed + 1) errors (latencies ++ c.ms ∷ []) in
      let bad = tally conns completed (errors + 1) latencies in if c.ok then good else bad

  -- `front()` and `back()` of a vector that is not empty.
  abbrev pub front : List Time → Time
  front [] = zero_ms
  front (x ∷ xs) = x

  abbrev pub back : List Time → Time
  back [] = zero_ms
  back (x ∷ []) = x
  back (x ∷ y ∷ xs) = back (y ∷ xs)

  -- The times of a result from the sorted latencies.
  unfoldable pub with_times : AlgoResult Time → List Time → Outcome (AlgoResult Time)
  with_times r latencies =
      let n = length latencies in
      at latencies (n * 50 / 100) >>= (λ p50. at latencies (n * 95 / 100) >>= (λ p95.
        at latencies (n * 99 / 100) >>= (λ p99. returns (record r {
          min_ms = front latencies;
          max_ms = back latencies;
          avg_ms = mean latencies;
          p50_ms = p50;
          p95_ms = p95;
          p99_ms = p99;
        }))))

  -- The counts of a result, with the times at zero.
  unfoldable pub with_counts : Bytes → LoadResult Time → Time → ℕ → ℕ → ℕ → AlgoResult Time
  with_counts algo load total_wall_ms backend_count completed errors = record {
    algo = algo;
    completed = completed;
    errors = errors;
    throughput = if not (leq total_wall_ms zero_ms) then rate completed total_wall_ms else 0;
    peak_connections = load.peak_connections;
    backend_count = backend_count;
    bytes_received = load.bytes_received;
    avg_ms = zero_ms;
    min_ms = zero_ms;
    p50_ms = zero_ms;
    p95_ms = zero_ms;
    p99_ms = zero_ms;
    max_ms = zero_ms;
  }

  unfoldable pub compute_stats : Bytes → LoadResult Time → Time → ℕ → Outcome (AlgoResult Time)
  unfolding tally with_counts sort with_times
  compute_stats algo load total_wall_ms backend_count =
      let (completed, errors, latencies) = tally load.conns 0 0 [] in
      let r = with_counts algo load total_wall_ms backend_count completed errors in
      elim latencies [ [] ↦ returns r | x ∷ xs ↦ with_times r (sort (x ∷ xs)) ]

-- ===== src/Tests/Bench.antt =====
-- bench/main.cpp with numbers for times.
use bit_bridge.Prelude.{
  value, unexpected, if◌then◌else◌, Bool, ℤ, pos, negsuc, format_nat, format_int, Bytes, some, ltb,
  ◌-◌, ℕ, ◌+◌, ◌*◌, ◌/◌, ◌<◌, ◌≡◌, ◌⊎◌, refl, true, false, leb, List, [], ◌∷◌, codes, length,
  returns, arith,
}
use bit_bridge.Bench.Load.{Event, Completion, success, closed, error, run, start}
use bit_bridge.Bench.Load.Counts.Ends.{IsServing}
use bit_bridge.Bench.Load.Turns.{idle_turns}
use bit_bridge.Bench.Load.Runs.{load_counts, load_finishes}
use bit_bridge.Bench.Arguments.{BenchConfig, parse_args, binary_not_found}
use bit_bridge.Bench.Arguments.RoundTrip.{arguments, parse_args-arguments}
use bit_bridge.Bench.Baseline.{baseline_text, compare_baseline}
use bit_bridge.Bench.Stats.{Clock, AlgoResult, LoadResult, compute_stats}
use bit_bridge.Bench.Stats.Ranks.{NoTimes, IsSummary, good_times, compute_stats_lem}

abbrev pub of_event : ℕ → Completion → Event ℕ
of_event i c = record { index = i; completion = c; ms = 7 }

-- Three requests, two at once: one is served, one is refused and one breaks off.
abbrev pub turns : List (Event ℕ)
turns =
    of_event 0 (success 0)
    ∷ of_event 0 (success 0)
    ∷ of_event 0 (success 100)
    ∷ of_event 1 error
    ∷ of_event 0 closed
    ∷ of_event 0 (success 0)
    ∷ of_event 0 error
    ∷ []

turns_results :
    (run turns (start ℕ 3 2)).results
    ≡ record { ok = false; ms = 7; bytes = 0 }
      ∷ record { ok = true; ms = 7; bytes = 100 }
      ∷ record { ok = false; ms = 7; bytes = 0 }
      ∷ []
unfolding run start
turns_results = refl

load_counts_example : IsServing 3 2 (run turns (start ℕ 3 2))
load_counts_example = load_counts ℕ 3 2 turns

load_finishes_example :
    (((run turns (start ℕ 3 2)).stopped ≡ true)
      × (length (run turns (start ℕ 3 2)).results ≡ 3)
      × ((run turns (start ℕ 3 2)).connections ≡ []))
    ⊎ (((run turns (start ℕ 3 2)).stopped ≡ false)
        × (0 < length (run turns (start ℕ 3 2)).connections)
        × (length turns < 3 * 3 + idle_turns turns (start ℕ 3 2)))
    ⊎ ((◌≡◌ {A = ℕ} 3 0 ⊎ ◌≡◌ {A = ℕ} 2 0)
        × (run turns (start ℕ 3 2) ≡ start ℕ 3 2)
        × ((start ℕ 3 2).stopped ≡ false)
        × ((start ℕ 3 2).connections ≡ []))
load_finishes_example = load_finishes ℕ 3 2 turns

pub leb_total : (a b : ℕ) → leb a b ≡ false → leb b a ≡ true
leb_total a b h = ground arith

pub leb_trans : (a b c : ℕ) → leb a b ≡ true → leb b c ≡ true → leb a c ≡ true
leb_trans a b c h k = ground arith

abbrev pub numbers : Clock
numbers = record {
  Time = ℕ;
  zero_ms = 0;
  leq = leb;
  mean = λ xs. 0;
  rate = λ n ms. n * 1000 / ms;
  leq_total = leb_total;
  leq_trans = leb_trans;
}

abbrev load : LoadResult ℕ
load = record {
  conns =
      record { ok = true; ms = 9; bytes = 1 }
      ∷ record { ok = false; ms = 3; bytes = 0 }
      ∷ record { ok = true; ms = 4; bytes = 1 }
      ∷ [];
  peak_connections = 2;
  bytes_received = 2;
}

compute_stats_lem_example :
    (r : AlgoResult ℕ) × (compute_stats numbers (codes "p2c") load 10 5 ≡ returns r)
    × (r.completed ≡ length (good_times numbers load.conns))
    × (r.completed + r.errors ≡ length load.conns)
    × (r.peak_connections ≡ load.peak_connections)
    × ((good_times numbers load.conns ≡ []) × NoTimes numbers r
        ⊎ IsSummary numbers r (good_times numbers load.conns))
compute_stats_lem_example = compute_stats_lem numbers (codes "p2c") load 10 5

abbrev result_of : Bytes → ℕ → AlgoResult ℕ
result_of algo throughput = record {
  algo = algo;
  completed = 9;
  errors = 1;
  throughput = throughput;
  peak_connections = 2;
  backend_count = 5;
  bytes_received = 1000;
  avg_ms = 7;
  min_ms = 1;
  p50_ms = 7;
  p95_ms = 8;
  p99_ms = 9;
  max_ms = 9;
}

abbrev results : List (AlgoResult ℕ)
results = result_of (codes "p2c") 1200 ∷ result_of (codes "consistent-hash") 987 ∷ []

abbrev pub cfg : BenchConfig
cfg = record {
  lb_binary = codes "./bit_bridge_lb";
  algo = codes "both";
  concurrency = pos 50;
  requests = pos 1000;
  services = pos 5;
  threshold_pct = pos 15;
  backend_delay_ms = pos 0;
  baseline = true;
  compare = true;
  baseline_file = codes "bench/baselines/baseline.json";
}

-- In whole numbers.
abbrev pub drops_by : ℕ → ℕ → ℤ → Bool
drops_by baseline throughput (pos threshold) =
    ltb (threshold * baseline) ((baseline - throughput) * 100)
drops_by baseline throughput (negsuc n) = true

-- A drop by a third.
slower :
    compare_baseline drops_by cfg
      (some (baseline_text format_nat (codes "now") cfg results))
      (result_of (codes "p2c") 800 ∷ [])
    ≡ returns false
unfolding compare_baseline baseline_text format_nat format_int
slower = refl

parse_args-arguments_example :
    parse_args (λ path. true) (arguments cfg)
    ≡ returns (if true then value cfg else unexpected (binary_not_found cfg.lb_binary))
parse_args-arguments_example =
    parse_args-arguments (λ path. true) cfg
      (record {
        concurrency_fits = omega arith;
        requests_fits = omega arith;
        services_fits = omega arith;
        threshold_fits = omega arith;
        delay_fits = omega arith;
        some_binary = refl;
        no_option = refl;
      })

-- ===== src/Bench/Phase/Processes.antt =====
-- How the phases of bench/main.cpp end, and which load balancers run then.
use native.Mathlib.Nat.{add-zero}
use bit_bridge.Prelude.{
  ℕ, zero, suc, ◌+◌, ◌<◌, ◌^◌, ◌≡◌, refl, Bool, true, false, List, [], ◌∷◌, Bytes, none, pos,
  returns, length_error, ◌⊎◌, inl, inr, Bool-cases, arith,
}
use bit_bridge.Bench.Load
use bit_bridge.Bench.Load.{LoadContext}
use bit_bridge.Bench.Arguments.{BenchConfig}
use bit_bridge.Bench.Baseline.{is_negative}
use bit_bridge.Bench.Stats.{
  Clock, AlgoResult, LoadResult, sort, tally, with_times, with_counts, compute_stats,
}
use bit_bridge.Bench.TempConfig.{print_lines, config_lines}
use bit_bridge.Bench.Phase.{
  lb_port, Processes, Ended, reached, died, waiting, aborted, ◌>>=◌, World, stop_lb, wait_from,
  at_once, run_load,
}

-- The only load balancer that runs is that of an algorithm, with its configuration.
abbrev pub lone : List ℕ → ℕ → Bytes → Processes
lone ports pid algo = (pid, print_lines (config_lines algo lb_port ports)) ∷ []

pub stop_lb-lone : (pid : ℕ) (text : Bytes) → 0 < pid → stop_lb pid ((pid, text) ∷ []) ≡ []
unfolding stop_lb
stop_lb-lone zero text h = absurd (omega arith)
stop_lb-lone (suc n) text h = ground arith

pub wait_from-cases :
    (left i : ℕ) (answers : ℕ → Bool) (ps : Processes)
    → ((wait_from left i answers ps ≡ reached tt ps)
        × ((k : ℕ) × (k < left) × (answers (i + k) ≡ true)))
      ⊎ ((wait_from left i answers ps ≡ died ps) × ((k : ℕ) → k < left → answers (i + k) ≡ false))
unfolding wait_from
wait_from-cases zero i answers ps = inr (refl, λ k h. absurd (omega arith))
wait_from-cases (suc left) i answers ps = elim (Bool-cases (answers i)) [
  | inl answered ↦ inl (ground arith, (0, omega arith, rw (add-zero i) answered))
  | inr silent ↦ elim (wait_from-cases left (suc i) answers ps) [
    | inl (done, (k, h, answered)) ↦
        inl (ground (arith, silent, done), (suc k, omega arith, later k true answered))
    | inr (over, all) ↦ inr (ground (arith, silent, over), λ k h. none_before k h silent all)
  ]
]
  where
    later : (k : ℕ) (b : Bool) → answers (suc i + k) ≡ b → answers (i + suc k) ≡ b
    later k b e = let same : i + suc k ≡ suc i + k = omega arith in rw same e

    none_before :
        (k : ℕ)
        → k < suc left
        → answers i ≡ false
        → ((k : ℕ) → k < left → answers (suc i + k) ≡ false)
        → answers (i + k) ≡ false
    none_before zero h silent all = rw (add-zero i) silent
    none_before (suc k) h silent all = later k false (all k (omega arith))

module _ (clock : Clock) where
  open clock use {Time, rate}

  with_times-kept :
      (r : AlgoResult Time) (latencies : List Time) (s : AlgoResult Time)
      → with_times clock r latencies ≡ returns s
      → (s.algo ≡ r.algo) × (s.throughput ≡ r.throughput)
  unfolding with_times
  with_times-kept r latencies s e = ground arith

  pub compute_stats-algo :
      (algo : Bytes) (load : LoadResult Time) (wall : Time) (n : ℕ) (r : AlgoResult Time)
      → compute_stats clock algo load wall n ≡ returns r
      → r.algo ≡ algo
  unfolding compute_stats with_counts
  compute_stats-algo algo load wall n r e =
      let (completed, errors, latencies) = tally clock load.conns 0 0 [] in
      let counts = with_counts clock algo load wall n completed errors in
      ground (arith, with_times-kept counts (sort clock latencies) r)

  pub compute_stats-kept :
      (algo : Bytes) (load : LoadResult Time) (wall : Time) (n : ℕ) (r : AlgoResult Time)
      → ((k : ℕ) (t : Time) → rate k t < 2 ^ 31)
      → compute_stats clock algo load wall n ≡ returns r
      → r.throughput < 2 ^ 31
  unfolding compute_stats with_counts
  compute_stats-kept algo load wall n r small e =
      let (completed, errors, latencies) = tally clock load.conns 0 0 [] in
      let counts = with_counts clock algo load wall n completed errors in
      ground (arith, small completed wall, with_times-kept counts (sort clock latencies) r)

  -- What ends the benchmark in the phase of an algorithm.
  module _ (cfg : BenchConfig) (ports : List ℕ) (world : Bytes → World Time) where
    abbrev pub Stops : {A : Type 0} → Ended A → Bytes → Type 0
    Stops e algo =
        ((e ≡ died []) × (((world algo).writable ≡ false) ⊎ ((world algo).forked ≡ none)))
        ⊎ ((pid : ℕ) × (e ≡ died (lone ports pid algo))
            × ((k : ℕ) → k < 100 → (world algo).answers k ≡ false))
        ⊎ ((pid : ℕ) × (total : ℕ) × (e ≡ waiting (lone ports pid algo))
            × (cfg.requests ≡ pos total)
            × ((Load.run (world algo).turns
                  (Load.start Time total (at_once clock cfg.concurrency))).stopped
                ≡ false))
        ⊎ ((pid : ℕ) × (e ≡ aborted length_error (lone ports pid algo))
            × (is_negative cfg.requests ≡ true))

    pub Stops-bind :
        {A B : Type 0} (e : Ended A) (f : A → Processes → Ended B) (algo : Bytes)
        → Stops e algo
        → Stops (e >>= f) algo
    Stops-bind e f algo (inl (h, why)) = inl (rw h refl, why)
    Stops-bind e f algo (inr (inl (pid, h, why))) = inr (inl (pid, rw h refl, why))
    Stops-bind e f algo (inr (inr (inl (pid, total, h, asked, why)))) =
        inr (inr (inl (pid, total, rw h refl, asked, why)))
    Stops-bind e f algo (inr (inr (inr (pid, h, why)))) = inr (inr (inr (pid, rw h refl, why)))

    abbrev result_of : LoadContext Time → LoadResult Time
    result_of c = record {
      conns = c.results;
      peak_connections = c.peak_inflight;
      bytes_received = c.bytes_received;
    }

    pub load_of-cases :
        (total : ℕ) (ps : Processes) (w : World Time)
        → ((load : LoadResult Time) × (run_load clock (pos total) cfg.concurrency w.turns ps
              ≡ reached load ps))
          ⊎ ((run_load clock (pos total) cfg.concurrency w.turns ps ≡ waiting ps)
              × ((Load.run w.turns (Load.start Time total (at_once clock cfg.concurrency))).stopped
                  ≡ false))
    unfolding run_load
    load_of-cases total ps w =
        let c = Load.run w.turns (Load.start Time total (at_once clock cfg.concurrency)) in
        elim (Bool-cases c.stopped) [
          | inl over ↦ inl (result_of c, rw over refl)
          | inr more ↦ inr (rw more refl, more)
        ]

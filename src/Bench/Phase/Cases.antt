-- ===== src/Bench/Phase/Cases.antt =====
-- `RunPhase` of bench/main.cpp.
use native.Mathlib.Nat.{zero-add}
use bit_bridge.Prelude.{
  ℕ, ◌<◌, ◌^◌, ◌≡◌, refl, ap, ◌+◌, ◌∙◌, true, false, List, [], Bytes, length, none, some, ℤ, pos,
  negsuc, ◌⊎◌, inl, inr, Bool-cases, Option-cases, arith,
}
use bit_bridge.Bench.Arguments.{BenchConfig}
use bit_bridge.Bench.Stats.{Clock, AlgoResult, LoadResult, compute_stats}
use bit_bridge.Bench.Stats.Ranks.{compute_stats_lem}
use bit_bridge.Bench.Baseline.{is_negative}
use bit_bridge.Bench.TempConfig.{print_lines, config_lines, write_temp_config}
use bit_bridge.Bench.Phase.{
  lb_port, died, Processes, of_outcome, wait_from, Ended, reached, ◌>>=◌, World, start_lb, stop_lb,
  wait_port, run_load, run_configured, run_phase,
}
use bit_bridge.Bench.Phase.Processes.{
  lone, stop_lb-lone, wait_from-cases, compute_stats-algo, compute_stats-kept, Stops, Stops-bind,
  load_of-cases,
}

module _ (clock : Clock) (cfg : BenchConfig) (ports : List ℕ) where
  open clock use {Time, rate}

  -- A phase has a result, of its algorithm, and its load balancer has ended.
  abbrev pub HasResult : Ended (AlgoResult Time) → Bytes → Type 0
  HasResult e algo =
      (r : AlgoResult Time) × (e ≡ reached r [])
      × (r.algo ≡ algo)
      × (((k : ℕ) (t : Time) → rate k t < 2 ^ 31) → r.throughput < 2 ^ 31)

  module _ (world : Bytes → World Time) (algo : Bytes) where
    abbrev text : Bytes
    text = print_lines (config_lines algo lb_port ports)

    run_load-cases :
        (z : ℤ) (pid : ℕ)
        → cfg.requests ≡ z
        → ((load : LoadResult Time) × (run_load clock cfg.requests cfg.concurrency
                (world algo).turns
                (lone ports pid algo)
              ≡ reached load (lone ports pid algo)))
          ⊎ Stops clock cfg ports world
              (run_load clock cfg.requests cfg.concurrency (world algo).turns (lone ports pid algo))
              algo
    run_load-cases (pos total) pid asked =
        let same =
          ap (λ z. run_load clock z cfg.concurrency (world algo).turns (lone ports pid algo))
            asked in
        elim (load_of-cases clock cfg ports world total (lone ports pid algo) (world algo)) [
          | inl (load, done) ↦ inl (load, same ∙ done)
          | inr (waits, more) ↦ inr (inr (inr (inl (pid, total, same ∙ waits, asked, more))))
        ]
    run_load-cases (negsuc n) pid asked = inr (
        inr (
          inr (
            inr (
              pid,
              ap (λ z. run_load clock z cfg.concurrency (world algo).turns (lone ports pid algo))
                    asked
                  ∙ unfold run_load in refl,
              ap is_negative asked,
            ))))

    -- What follows the load, and the attempts to connect.
    abbrev from_load : ℕ → LoadResult Time → Processes → Ended (AlgoResult Time)
    from_load pid load ps =
        of_outcome (compute_stats clock algo load (world algo).wall_ms (length ports))
          (stop_lb pid ps)

    abbrev from_port : ℕ → Unit {0} → Processes → Ended (AlgoResult Time)
    from_port pid u ps =
        run_load clock cfg.requests cfg.concurrency (world algo).turns ps >>= from_load pid

    from_load-HasResult :
        (pid : ℕ) (load : LoadResult Time)
        → 0 < pid
        → HasResult (from_load pid load (lone ports pid algo)) algo
    from_load-HasResult pid load positive =
        let (r, made, _, _, _, _) =
          compute_stats_lem clock algo load (world algo).wall_ms (length ports) in
        let ended = stop_lb-lone pid text positive in
        let small = compute_stats-kept clock algo load (world algo).wall_ms (length ports) r in
        (
          r,
          ap (λ o. of_outcome o (stop_lb pid (lone ports pid algo))) made ∙ ap (reached r) ended,
          compute_stats-algo clock algo load (world algo).wall_ms (length ports) r made,
          λ fits. small fits made,
        )

    from_port-cases :
        (pid : ℕ)
        → 0 < pid
        → HasResult (from_port pid tt (lone ports pid algo)) algo
          ⊎ Stops clock cfg ports world (from_port pid tt (lone ports pid algo)) algo
    from_port-cases pid positive = elim (run_load-cases cfg.requests pid refl) [
      | inl (load, done) ↦
          let (r, made, named, small) = from_load-HasResult pid load positive in
          inl (r, ap (λ e. e >>= from_load pid) done ∙ made, named, small)
      | inr stops ↦ inr (Stops-bind clock cfg ports world _ (from_load pid) algo stops)
    ]

    run_configured-forked :
        (pid : ℕ)
        → (world algo).forked ≡ some pid
        → run_configured clock cfg algo ports (world algo) text []
          ≡ (wait_from 100 0 (world algo).answers (lone ports pid algo) >>= from_port pid)
    unfolding run_configured start_lb wait_port
    run_configured-forked pid forked = rw forked refl

    -- `fork` gives the parent a number above zero.
    abbrev pub IsForked : Type 0
    IsForked = (pid : ℕ) → (world algo).forked ≡ some pid → 0 < pid

    run_configured-not_forked :
        (world algo).forked ≡ none
        → run_configured clock cfg algo ports (world algo) text [] ≡ died []
    unfolding run_configured start_lb
    run_configured-not_forked none_there = rw none_there refl

    from_start : (k : ℕ) → (world algo).answers (0 + k) ≡ false → (world algo).answers k ≡ false
    from_start k silent = rw (zero-add k) at silent

    run_configured-cases :
        IsForked
        → HasResult (run_configured clock cfg algo ports (world algo) text []) algo
          ⊎ Stops clock cfg ports world
              (run_configured clock cfg algo ports (world algo) text [])
              algo
    run_configured-cases fork = elim (Option-cases (world algo).forked) [
      | inl none_there ↦ inr (inl (run_configured-not_forked none_there, inr none_there))
      | inr (pid, forked) ↦
          let same = run_configured-forked pid forked in
          elim (wait_from-cases 100 0 (world algo).answers (lone ports pid algo)) [
            | inl (opened, _) ↦ rw (same, opened) (from_port-cases pid (fork pid forked))
            | inr (over, silent) ↦ inr (
                inr (
                  inl (
                    pid,
                    same ∙ ap (λ e. e >>= from_port pid) over,
                    λ k h. from_start k (silent k h),
                  )))
          ]
    ]

    run_phase-written :
        (world algo).writable ≡ true
        → run_phase clock cfg algo ports (world algo) []
          ≡ run_configured clock cfg algo ports (world algo) text []
    unfolding run_phase write_temp_config
    run_phase-written writable = ground arith

    run_phase-not_written :
        (world algo).writable ≡ false → run_phase clock cfg algo ports (world algo) [] ≡ died []
    unfolding run_phase write_temp_config
    run_phase-not_written refused = ground arith

    pub run_phase-cases :
        IsForked
        → HasResult (run_phase clock cfg algo ports (world algo) []) algo
          ⊎ Stops clock cfg ports world (run_phase clock cfg algo ports (world algo) []) algo
    run_phase-cases fork = elim (Bool-cases (world algo).writable) [
      | inl writable ↦ rw (run_phase-written writable) (run_configured-cases fork)
      | inr refused ↦ inr (inl (run_phase-not_written refused, inl refused))
    ]

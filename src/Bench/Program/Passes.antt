-- ===== src/Bench/Program/Passes.antt =====
-- `main` of bench/main.cpp from its arguments to its exit code.
use bit_bridge.Prelude.{
  ℕ, ◌<◌, ◌^◌, ◌≡◌, refl, ap, ◌∙◌, Bool, true, false, List, [], ◌∷◌, Bytes, codes, same_text,
  length, All, Any, Option, some, ℤ, pos, returns, value, inl, inr, arith,
}
use bit_bridge.Bench.Load
use bit_bridge.Bench.Arguments.{BenchConfig, parse_args, algos_of}
use bit_bridge.Bench.Stats.{Clock, AlgoResult}
use bit_bridge.Bench.Baseline.{is_negative}
use bit_bridge.Bench.Baseline.Search.{clean}
use bit_bridge.Bench.Main.{report, report_passes}
use bit_bridge.Bench.Phase.{World, Ended, reached, at_once, of_outcome, ◌>>=◌, run_phases}
use bit_bridge.Bench.Phase.Processes.{Stops}
use bit_bridge.Bench.Phase.Cases.{IsForked}
use bit_bridge.Bench.Phase.Ends.{phases_end}
use bit_bridge.Bench.Program.{spawn_echo_services, measure, main}

module _ (clock : Clock) (cfg : BenchConfig) (total : ℕ) where
  open clock use {Time, rate}

  -- The other side does its part in a phase: the configuration can be written, there is a child, its port
  -- answers one of the hundred attempts, and the turns of the load stop it.
  pub record IsDone (world : World Time) : Type 0 where
    pub written : world.writable ≡ true
    pub pid : ℕ
    pub child : world.forked ≡ some pid
    pub attempt : ℕ
    pub in_time : attempt < 100
    pub answered : world.answers attempt ≡ true
    pub stopped :
        (Load.run world.turns (Load.start Time total (at_once clock cfg.concurrency))).stopped
        ≡ true

  module _ (ports : List ℕ) (world : Bytes → World Time) (asked : cfg.requests ≡ pos total) where
    IsDone-Stops :
        {A : Type 0} (e : Ended A) (algo : Bytes)
        → IsDone (world algo)
        → ¬ Stops clock cfg ports world e algo
    IsDone-Stops e algo d (inl (_, inl refused)) = absurd (let w = d.written in cc)
    IsDone-Stops e algo d (inl (_, inr none_there)) = absurd (let w = d.child in cc)
    IsDone-Stops e algo d (inr (inl (_, _, silent))) =
        absurd (let w = d.answered in let v = silent d.attempt d.in_time in cc)
    IsDone-Stops e algo d (inr (inr (inl (_, n, _, same, more)))) =
        absurd (let w = d.stopped in let t : n ≡ total = cc in let m = (rw t at more) in cc)
    IsDone-Stops e algo d (inr (inr (inr (_, _, below)))) =
        absurd (let w = ap is_negative asked in cc)

    All-Stops :
        {A : Type 0} (e : Ended A) (algos : List Bytes)
        → All (λ algo. IsDone (world algo)) algos
        → ¬ Any (Stops clock cfg ports world e) algos
    All-Stops e [] d h = h
    All-Stops e (algo ∷ algos) d (inl stops) = IsDone-Stops e algo d.0 stops
    All-Stops e (algo ∷ algos) d (inr more) = All-Stops e algos d.1 more

  module _ (show : Time → Bytes) (shown : (t : Time) → clean (show t) ≡ true)
      (drops_by : ℕ → ℕ → ℤ → Bool) where
    measure-passes :
        (world : Bytes → World Time) (ts : Bytes) (file : Option Bytes) (ports : List ℕ)
        (rs : List (AlgoResult Time))
        → 0 < length ports
        → run_phases clock cfg ports world (algos_of cfg) [] ≡ reached rs []
        → report show drops_by true true ts cfg file rs ≡ returns 0
        → measure clock show drops_by world true true ts file cfg ports [] ≡ reached 0 []
    unfolding measure
    measure-passes world ts file [] rs h measured passed = absurd (omega arith)
    measure-passes world ts file (port ∷ ports) rs h measured passed =
        ap
          (λ e.
            e >>= λ results ps. of_outcome (report show drops_by true true ts cfg file results) ps)
          measured
        ∙ ap (λ o. of_outcome o []) passed

    main-measure :
        (exists : Bytes → Bool) (args : List Bytes) (bound : ℕ → Option ℕ)
        (world : Bytes → World Time) (ts : Bytes) (file : Option Bytes) (ports : List ℕ)
        → parse_args exists args ≡ returns (value cfg)
        → spawn_echo_services bound cfg.services ≡ returns ports
        → main clock show drops_by exists args bound world true true ts file
          ≡ measure clock show drops_by world true true ts file cfg ports []
    unfolding main
    main-measure exists args bound world ts file ports parsed spawned = rw (parsed, spawned) refl

    -- The benchmark from its arguments to its exit code. Where these are parsed, the echo services are there,
    -- at least one, a number of requests that is not below zero is asked for, `fork` numbers its children
    -- from above zero, the other side does its part in the phase of every algorithm and a rate fits an
    -- `int`, a benchmark that saves its baseline ends, with no load balancer running, and exits with 0,
    -- whether it compares or not. Besides, let the file be writable, the threshold not negative and no drop
    -- be a drop by zero percent; and let the clock's text, the path of the binary and the written numbers
    -- have no quote, nor the first two be the name of an algorithm.
    pub bench_passes :
        (exists : Bytes → Bool) (args : List Bytes) (bound : ℕ → Option ℕ)
        (world : Bytes → World Time) (ts : Bytes) (file : Option Bytes) (ports : List ℕ)
        → parse_args exists args ≡ returns (value cfg)
        → spawn_echo_services bound cfg.services ≡ returns ports
        → 0 < length ports
        → cfg.requests ≡ pos total
        → ((algo : Bytes) → IsForked clock cfg ports world algo)
        → All (λ algo. IsDone (world algo)) (algos_of cfg)
        → ((k : ℕ) (t : Time) → rate k t < 2 ^ 31)
        → ((n : ℕ) → drops_by n n cfg.threshold_pct ≡ false)
        → is_negative cfg.threshold_pct ≡ false
        → All
            (λ name.
              (clean name ≡ true)
              × (same_text (codes "p2c") name ≡ false)
              × (same_text (codes "consistent-hash") name ≡ false))
            (ts ∷ cfg.lb_binary ∷ [])
        → cfg.baseline ≡ true
        → main clock show drops_by exists args bound world true true ts file ≡ reached 0 []
    bench_passes exists args bound world ts file ports parsed spawned some_port asked fork d below
          level percent apart on =
        main-measure exists args bound world ts file ports parsed spawned
        ∙ elim (phases_end clock cfg ports world (algos_of cfg) fork below) [
          | inl (rs, measured, named, small) ↦
              measure-passes world ts file ports rs some_port measured (
                report_passes show shown drops_by ts cfg file rs named small level percent apart on)
          | inr stops ↦ absurd (All-Stops ports world asked _ (algos_of cfg) d stops)
        ]

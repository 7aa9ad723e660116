-- ===== src/Bench/Phase/Ends.antt =====
-- The loop of `main` in bench/main.cpp over the algorithms.
use mathlib.Core.Path.{subst}
use bit_bridge.Prelude.{
  ℕ, ◌<◌, ◌^◌, ◌≡◌, refl, sym, ap, ap₂, ◌∙◌, List, [], ◌∷◌, map, Bytes, All, Any, ◌⊎◌, inl, inr,
}
use bit_bridge.Bench.Arguments.{BenchConfig}
use bit_bridge.Bench.Stats.{Clock, AlgoResult}
use bit_bridge.Bench.Phase.{Processes, Ended, reached, ◌>>=◌, World, run_phase, run_phases}
use bit_bridge.Bench.Phase.Processes.{Stops, Stops-bind}
use bit_bridge.Bench.Phase.Cases.{IsForked, run_phase-cases}

module _ (clock : Clock) (cfg : BenchConfig) (ports : List ℕ) where
  open clock use {Time, rate}

  Any-bind :
      {A B : Type 0} (world : Bytes → World Time) (e : Ended A) (f : A → Processes → Ended B)
      (algos : List Bytes)
      → Any (Stops clock cfg ports world e) algos
      → Any (Stops clock cfg ports world (e >>= f)) algos
  Any-bind world e f [] h = h
  Any-bind world e f (algo ∷ algos) (inl stops) =
      inl (Stops-bind clock cfg ports world e f algo stops)
  Any-bind world e f (algo ∷ algos) (inr more) = inr (Any-bind world e f algos more)

  -- What follows the first phase.
  abbrev later :
      (Bytes → World Time)
      → List Bytes
      → AlgoResult Time
      → Processes
      → Ended (List (AlgoResult Time))
  later world algos r ps =
      run_phases clock cfg ports world algos ps >>= λ rs ps. reached (r ∷ rs) ps

  run_phases-cons :
      (world : Bytes → World Time) (algo : Bytes) (algos : List Bytes)
      → run_phases clock cfg ports world (algo ∷ algos) []
        ≡ (run_phase clock cfg algo ports (world algo) [] >>= later world algos)
  unfolding run_phases
  run_phases-cons world algo algos = refl

  pub phases_end :
      (world : Bytes → World Time) (algos : List Bytes)
      → ((algo : Bytes) → IsForked clock cfg ports world algo)
      → ((k : ℕ) (t : Time) → rate k t < 2 ^ 31)
      → ((rs : List (AlgoResult Time)) × (run_phases clock cfg ports world algos [] ≡ reached rs [])
          × (map (λ r. r.algo) rs ≡ algos)
          × All (λ r. r.throughput < 2 ^ 31) rs)
        ⊎ Any (Stops clock cfg ports world (run_phases clock cfg ports world algos [])) algos
  unfolding run_phases
  phases_end world [] fork below = inl ([], refl, refl, tt)
  phases_end world (algo ∷ algos) fork below =
      elim (run_phase-cases clock cfg ports world algo (fork algo)) [
        | inr stops ↦ inr (inl (Stops-bind clock cfg ports world _ (later world algos) algo stops))
        | inl (r, done, named, fits) ↦
            let same = run_phases-cons world algo algos ∙ ap (λ e. e >>= later world algos) done in
            elim (phases_end world algos fork below) [
              | inl (rs, all, names, small) ↦ inl (
                r ∷ rs,
                same ∙ ap (λ e. e >>= λ rs ps. reached (r ∷ rs) ps) all,
                ap₂ ◌∷◌ named names,
                (fits below, small),
              )
              | inr stops ↦ inr (
                  inr (
                    subst (λ e. Any (Stops clock cfg ports world e) algos) (sym same)
                      (Any-bind world _ (λ rs ps. reached (r ∷ rs) ps) algos stops)))
            ]
      ]

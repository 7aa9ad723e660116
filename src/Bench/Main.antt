-- ===== src/Bench/Main.antt =====
-- `main` of bench/main.cpp behind the measurements: the baseline, the comparison and the exit code.
use bit_bridge.Prelude.{
  ℕ, ◌<◌, ◌^◌, ◌≡◌, refl, Bool, true, false, if◌then◌else◌, List, [], ◌∷◌, map, Bytes, codes,
  same_text, ℤ, Option, none, some, All, Outcome, returns, ◌>>=◌, Bool-cases, inl, inr, arith,
}
use bit_bridge.Bench.Arguments.{BenchConfig, algos_of}
use bit_bridge.Bench.Stats.{AlgoResult}
use bit_bridge.Bench.Baseline.{save_baseline, compare_baseline, is_negative}
use bit_bridge.Bench.Baseline.Search.{clean}
use bit_bridge.Bench.Baseline.Fields.{IsName, keys}
use bit_bridge.Bench.Baseline.RoundTrip.{IsResult, Apart, baseline_passes}

module _ {Time : Type 0} (show : Time → Bytes) (drops_by : ℕ → ℕ → ℤ → Bool) where
  -- The comparison with what stands in the file, where it is asked for.
  abbrev pub compared : BenchConfig → Option Bytes → List (AlgoResult Time) → Outcome ℕ
  compared cfg file results =
      if cfg.compare
      then compare_baseline drops_by cfg file results
        >>= (λ passed. returns (if passed then 0 else 1))
      else returns 0

  -- The exit code, with what stands in the baseline file; `Die` exits with 1.
  unfoldable pub report :
      Bool → Bool → Bytes → BenchConfig → Option Bytes → List (AlgoResult Time) → Outcome ℕ
  unfolding save_baseline compare_baseline
  report has_parent opens ts cfg file results =
      if cfg.baseline
      then save_baseline show has_parent opens ts cfg results >>= (λ saved. elim saved [
        | none ↦ returns 1
        | some text ↦ compared cfg (some text) results
      ])
      else compared cfg file results

-- A text that is none of the keys.
abbrev is_fresh : Bytes → List Bytes → Bool
is_fresh name [] = true
is_fresh name (key ∷ ks) = if same_text name key then false else is_fresh name ks

is_fresh-All :
    (name : Bytes) (ks : List Bytes)
    → is_fresh name ks ≡ true
    → All (λ key. same_text name key ≡ false) ks
is_fresh-All name [] h = tt
is_fresh-All name (key ∷ ks) h = elim (Bool-cases (same_text name key)) [
  | inl same ↦ absurd (ground arith)
  | inr differ ↦ (differ, is_fresh-All name ks (ground arith))
]

pub p2c-IsName : IsName (codes "p2c")
p2c-IsName = record {
  unquoted = refl;
  no_colon = refl;
  no_comma = refl;
  reserved = is_fresh-All (codes "p2c") keys refl;
}

pub consistent_hash-IsName : IsName (codes "consistent-hash")
consistent_hash-IsName = record {
  unquoted = refl;
  no_colon = refl;
  no_comma = refl;
  reserved = is_fresh-All (codes "consistent-hash") keys refl;
}

-- What holds of both algorithms holds of those that are measured.
algos_of-All :
    (P : Bytes → Type 0) (cfg : BenchConfig)
    → P (codes "p2c")
    → P (codes "consistent-hash")
    → All P (algos_of cfg)
unfolding algos_of
algos_of-All P cfg p h = ground arith

-- Names that differ from each other.
abbrev ApartNames : List Bytes → Type 0
ApartNames [] = Unit {0}
ApartNames (n ∷ names) = All (λ m. same_text m n ≡ false) names × ApartNames names

algos_of-ApartNames : (cfg : BenchConfig) → ApartNames (algos_of cfg)
unfolding algos_of
algos_of-ApartNames cfg = ground arith

module _ {Time : Type 0} where
  All-names :
      (P : Bytes → Type 0) (results : List (AlgoResult Time))
      → All P (map (λ r. r.algo) results)
      → All (λ r. P r.algo) results
  All-names P [] h = tt
  All-names P (r ∷ results) h = (h.0, All-names P results h.1)

  module _ (show : Time → Bytes) (shown : (t : Time) → clean (show t) ≡ true) where
    names-IsResult :
        (results : List (AlgoResult Time))
        → All IsName (map (λ r. r.algo) results)
        → All (λ r. r.throughput < 2 ^ 31) results
        → All (IsResult show shown) results
    names-IsResult [] h k = tt
    names-IsResult (r ∷ results) h k =
        (record { named = h.0; throughput_fits = k.0 }, names-IsResult results h.1 k.1)

    names-Apart :
        (results : List (AlgoResult Time))
        → ApartNames (map (λ r. r.algo) results)
        → Apart show shown results
    names-Apart [] h = tt
    names-Apart (r ∷ results) h =
        (All-names (λ m. same_text m r.algo ≡ false) results h.0, names-Apart results h.1)

    -- A benchmark that saves its baseline and compares with it exits with 0. Let there be a result for each of
    -- the algorithms that are measured, of a throughput that is an `int`; let the file be writable, the
    -- threshold not negative and no drop be a drop by zero percent; and let the clock's text, the path of the
    -- binary and the written numbers have no quote, nor the first two be the name of an algorithm.
    pub report_passes :
        (drops_by : ℕ → ℕ → ℤ → Bool) (ts : Bytes) (cfg : BenchConfig) (file : Option Bytes)
        (results : List (AlgoResult Time))
        → map (λ r. r.algo) results ≡ algos_of cfg
        → All (λ r. r.throughput < 2 ^ 31) results
        → ((n : ℕ) → drops_by n n cfg.threshold_pct ≡ false)
        → is_negative cfg.threshold_pct ≡ false
        → All
            (λ name.
              (clean name ≡ true)
              × (same_text (codes "p2c") name ≡ false)
              × (same_text (codes "consistent-hash") name ≡ false))
            (ts ∷ cfg.lb_binary ∷ [])
        → cfg.baseline ≡ true
        → report show drops_by true true ts cfg file results ≡ returns 0
    report_passes drops_by ts cfg file results named fit level percent
          ((t, tp, tc), ((b, bp, bc), _)) on =
        let names : All IsName (map (λ r. r.algo) results) =
          rw named (algos_of-All IsName cfg p2c-IsName consistent_hash-IsName) in
        let apart : ApartNames (map (λ r. r.algo) results) = rw named (algos_of-ApartNames cfg) in
        let Other = λ (n : Bytes). (same_text n ts ≡ false) × (same_text n cfg.lb_binary ≡ false) in
        let others : All Other (map (λ r. r.algo) results) =
          rw named (algos_of-All Other cfg (tp, bp) (tc, bc)) in
        let (text, saved, passes) =
          baseline_passes show shown drops_by cfg level percent ts cfg results
            (names-IsResult results names fit) (names-Apart results apart) t b
            (All-names Other results others) in
        elim (Bool-cases cfg.compare) [
          | inl compare ↦ unfold report in (ground (arith, saved, passes))
          | inr ignored ↦ unfold report in (ground (arith, saved))
        ]

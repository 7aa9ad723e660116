-- ===== src/Bench/Baseline.antt =====
-- `SaveBaseline` and `CompareBaseline` of bench/main.cpp.
pub mod Search
pub mod Fields
pub mod Passing
pub mod RoundTrip
use bit_bridge.Prelude.{
  ℕ, zero, suc, ◌==◌, ltb, Bool, true, false, not, ◌&&◌, if◌then◌else◌, List, [], ◌∷◌, ◌++◌, Bytes,
  codes, format_nat, length, take, drop, Option, none, some, Outcome, returns, throws, system_error,
  ◌>>=◌, ℤ, pos, negsuc, format_int, stoi_int,
}
use bit_bridge.Bench.Arguments.{BenchConfig}
use bit_bridge.Bench.Stats.{AlgoResult, err_pct}

abbrev pub starts_with : Bytes → Bytes → Bool
starts_with [] s = true
starts_with (c ∷ needle) [] = false
starts_with (c ∷ needle) (d ∷ s) = if c == d then starts_with needle s else false

-- `content.find(needle, pos)`: what stands in the content from there on, `none` for `npos`.
unfoldable pub find : Bytes → Bytes → Option Bytes
find needle [] = if starts_with needle [] then some [] else none
find needle (c ∷ s) =
    let rest = find needle s in if starts_with needle (c ∷ s) then some (c ∷ s) else rest

-- What is written piece by piece, in front of what is written later.
abbrev pub pour : List Bytes → Bytes → Bytes
pour [] rest = rest
pour (x ∷ xs) rest = x ++ pour xs rest

abbrev pub comma : {A : Type 0} → List A → Bytes
comma [] = []
comma (x ∷ xs) = codes ","

abbrev pub quoted : Bytes → Bytes
quoted s = b'"' ∷ (s ++ b'"' ∷ [])

abbrev pub needle : Bytes
needle = codes "\"throughput_per_sec\": "

abbrev pub is_negative : ℤ → Bool
is_negative (pos n) = false
is_negative (negsuc n) = true

-- `show`: a `double` with two places behind the point.
module _ {Time : Type 0} (show : Time → Bytes) where
  -- The lines of a result, in front of what is written later.
  unfoldable pub result_text : AlgoResult Time → Bytes → Bytes → Bytes
  unfolding err_pct
  result_text r sep rest =
      pour
        (codes "    \""
          ∷ r.algo
          ∷ codes "\": {\n"
          ∷ codes "      \"completed\": "
          ∷ format_nat r.completed
          ∷ codes ",\n"
          ∷ codes "      \"errors\": "
          ∷ format_nat r.errors
          ∷ codes ",\n"
          ∷ codes "      \"error_pct\": "
          ∷ format_nat (err_pct r.completed r.errors)
          ∷ codes ",\n"
          ∷ codes "      \"throughput_per_sec\": "
          ∷ format_nat r.throughput
          ∷ codes ",\n"
          ∷ codes "      \"peak_connections\": "
          ∷ format_nat r.peak_connections
          ∷ codes ",\n"
          ∷ codes "      \"bytes_received\": "
          ∷ format_nat r.bytes_received
          ∷ codes ",\n"
          ∷ codes "      \"avg_ms\": "
          ∷ show r.avg_ms
          ∷ codes ",\n"
          ∷ codes "      \"min_ms\": "
          ∷ show r.min_ms
          ∷ codes ",\n"
          ∷ codes "      \"p50_ms\": "
          ∷ show r.p50_ms
          ∷ codes ",\n"
          ∷ codes "      \"p95_ms\": "
          ∷ show r.p95_ms
          ∷ codes ",\n"
          ∷ codes "      \"p99_ms\": "
          ∷ show r.p99_ms
          ∷ codes ",\n"
          ∷ codes "      \"max_ms\": "
          ∷ show r.max_ms
          ∷ codes "\n"
          ∷ codes "    }"
          ∷ sep
          ∷ codes "\n"
          ∷ [])
        rest

  unfoldable pub results_text : List (AlgoResult Time) → Bytes → Bytes
  unfolding result_text
  results_text [] rest = rest
  results_text (r ∷ results) rest = result_text r (comma results) (results_text results rest)

  -- The text of the file; `ts` is the time of the clock as a text.
  unfoldable pub baseline_text : Bytes → BenchConfig → List (AlgoResult Time) → Bytes
  unfolding results_text
  baseline_text ts cfg results =
      pour
        (codes "{\n"
          ∷ codes "  \"timestamp\": \""
          ∷ ts
          ∷ codes "\",\n"
          ∷ codes "  \"binary\": \""
          ∷ cfg.lb_binary
          ∷ codes "\",\n"
          ∷ codes "  \"concurrency\": "
          ∷ format_int cfg.concurrency
          ∷ codes ",\n"
          ∷ codes "  \"requests\": "
          ∷ format_int cfg.requests
          ∷ codes ",\n"
          ∷ codes "  \"services\": "
          ∷ format_int cfg.services
          ∷ codes ",\n"
          ∷ codes "  \"results\": {\n"
          ∷ [])
        (results_text results (codes "  }\n}\n"))

  -- `none` is the end of the program, where the file cannot be opened for writing; `create_directories` may
  -- throw.
  unfoldable pub save_baseline :
      Bool → Bool → Bytes → BenchConfig → List (AlgoResult Time) → Outcome (Option Bytes)
  unfolding baseline_text
  save_baseline has_parent opens ts cfg results =
      if has_parent
      then (if opens then returns (some (baseline_text ts cfg results)) else returns none)
      else throws system_error

-- `drops_by`: the drop from a positive baseline to a throughput is more percent than a threshold.
module _ (drops_by : ℕ → ℕ → ℤ → Bool) (cfg : BenchConfig) where
  abbrev pub drops : ℤ → ℕ → Bool
  drops (pos zero) throughput = is_negative cfg.threshold_pct
  drops (pos (suc n)) throughput = drops_by (suc n) throughput cfg.threshold_pct
  drops (negsuc n) throughput = is_negative cfg.threshold_pct

  -- One round of the loop: whether the result passes.
  unfoldable pub compare_result : {Time : Type 0} → Bytes → AlgoResult Time → Outcome Bool
  unfolding find stoi_int
  compare_result content r = elim (find (quoted r.algo) content) [
    | none ↦ returns true
    | some from ↦ elim (find needle from) [
      | none ↦ returns true
      | some at ↦
          stoi_int (take 10 (drop (length needle) at))
          >>= (λ baseline. returns (not (drops baseline r.throughput)))
    ]
  ]

  unfoldable pub compare_results : {Time : Type 0} → Bytes → List (AlgoResult Time) → Outcome Bool
  unfolding compare_result
  compare_results content [] = returns true
  compare_results content (r ∷ current) =
      compare_result content r
      >>= (λ passed. compare_results content current >>= (λ others. returns (passed && others)))

  -- `none`: the file cannot be read.
  unfoldable pub compare_baseline :
      {Time : Type 0} → Option Bytes → List (AlgoResult Time) → Outcome Bool
  unfolding compare_results
  compare_baseline none current = returns true
  compare_baseline (some content) current = compare_results content current

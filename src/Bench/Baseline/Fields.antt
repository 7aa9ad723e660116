-- ===== src/Bench/Baseline/Fields.antt =====
-- The text of `SaveBaseline` of bench/main.cpp as names in quotes.
use bit_bridge.Prelude.{
  ℕ, ◌≡◌, refl, ◌∙◌, true, false, ◌==◌, List, [], ◌∷◌, ◌++◌, Bytes, codes, format_nat, format_int,
  same_text, All,
}
use bit_bridge.Model.Node.{first_is}
use bit_bridge.Bench.Arguments.{BenchConfig}
use bit_bridge.Bench.Stats.{AlgoResult, err_pct}
use bit_bridge.Bench.Baseline.{pour, find, result_text, results_text, baseline_text}
use bit_bridge.Bench.Baseline.Search.{clean, find_other}

-- A name in quotes, the character behind it, and what stands before the next name.
pub record Field : Type 0 where
  pub name : Bytes
  pub mark : ℕ
  pub pieces : List Bytes

abbrev pub fields_text : List Field → Bytes → Bytes
fields_text [] rest = rest
fields_text (f ∷ fs) rest = b'"' ∷ (f.name ++ b'"' ∷ f.mark ∷ pour f.pieces (fields_text fs rest))

abbrev pub number_field : Bytes → Bytes → Field
number_field name text = record {
  name = name;
  mark = b':';
  pieces = codes " " ∷ text ∷ codes ",\n" ∷ codes "      " ∷ [];
}

-- A search for a name in quotes passes a field.
abbrev pub Passes : Bytes → Field → Type 0
Passes name f =
    (clean f.name ≡ true)
    × (same_text name f.name ≡ false)
    × (first_is f.mark name ≡ false)
    × ((f.mark == b'"') ≡ false)
    × All (λ x. clean x ≡ true) f.pieces

pub find_fields :
    (name s : Bytes) (fs : List Field) (t : Bytes)
    → clean name ≡ true
    → All (Passes name) fs
    → find (b'"' ∷ (name ++ b'"' ∷ s)) (fields_text fs t) ≡ find (b'"' ∷ (name ++ b'"' ∷ s)) t
find_fields name s [] t h k = refl
find_fields name s (f ∷ fs) t h ((k, n, m, q, x), p) =
    find_other name s f.name f.mark f.pieces (fields_text fs t) h k n m q x
    ∙ find_fields name s fs t h p

-- The names of the file.
abbrev pub keys : List Bytes
keys =
    codes "timestamp"
    ∷ codes "binary"
    ∷ codes "concurrency"
    ∷ codes "requests"
    ∷ codes "services"
    ∷ codes "results"
    ∷ codes "completed"
    ∷ codes "errors"
    ∷ codes "error_pct"
    ∷ codes "throughput_per_sec"
    ∷ codes "peak_connections"
    ∷ codes "bytes_received"
    ∷ codes "avg_ms"
    ∷ codes "min_ms"
    ∷ codes "p50_ms"
    ∷ codes "p95_ms"
    ∷ codes "p99_ms"
    ∷ codes "max_ms"
    ∷ []

-- A name that cannot be taken for anything else of the file.
pub record IsName (name : Bytes) : Type 0 where
  pub unquoted : clean name ≡ true
  pub no_colon : first_is b':' name ≡ false
  pub no_comma : first_is b',' name ≡ false
  pub reserved : All (λ key. same_text name key ≡ false) keys

module _ {Time : Type 0} (show : Time → Bytes) where
  -- The lines of a result up to its throughput, and from there on.
  abbrev pub before_throughput : AlgoResult Time → List Field
  before_throughput r =
      record { name = r.algo; mark = b':'; pieces = codes " {\n" ∷ codes "      " ∷ [] }
      ∷ number_field (codes "completed") (format_nat r.completed)
      ∷ number_field (codes "errors") (format_nat r.errors)
      ∷ number_field (codes "error_pct") (format_nat (err_pct r.completed r.errors))
      ∷ []

  abbrev pub from_throughput : AlgoResult Time → Bytes → List Field
  from_throughput r sep =
      number_field (codes "throughput_per_sec") (format_nat r.throughput)
      ∷ number_field (codes "peak_connections") (format_nat r.peak_connections)
      ∷ number_field (codes "bytes_received") (format_nat r.bytes_received)
      ∷ number_field (codes "avg_ms") (show r.avg_ms)
      ∷ number_field (codes "min_ms") (show r.min_ms)
      ∷ number_field (codes "p50_ms") (show r.p50_ms)
      ∷ number_field (codes "p95_ms") (show r.p95_ms)
      ∷ number_field (codes "p99_ms") (show r.p99_ms)
      ∷ record {
        name = codes "max_ms";
        mark = b':';
        pieces = codes " " ∷ show r.max_ms ∷ codes "\n" ∷ codes "    }" ∷ sep ∷ codes "\n" ∷ [];
      }
      ∷ []

  pub result_text-fields :
      (r : AlgoResult Time) (sep rest : Bytes)
      → result_text show r sep rest
        ≡ pour
            (codes "    " ∷ [])
            (fields_text (before_throughput r) (fields_text (from_throughput r sep) rest))
  unfolding result_text
  result_text-fields r sep rest = refl

  abbrev pub config_fields : Bytes → BenchConfig → List Field
  config_fields ts cfg =
      record { name = codes "timestamp"; mark = b':'; pieces = codes " " ∷ [] }
      ∷ record { name = ts; mark = b','; pieces = codes "\n" ∷ codes "  " ∷ [] }
      ∷ record { name = codes "binary"; mark = b':'; pieces = codes " " ∷ [] }
      ∷ record { name = cfg.lb_binary; mark = b','; pieces = codes "\n" ∷ codes "  " ∷ [] }
      ∷ record {
        name = codes "concurrency";
        mark = b':';
        pieces = codes " " ∷ format_int cfg.concurrency ∷ codes ",\n  " ∷ [];
      }
      ∷ record {
        name = codes "requests";
        mark = b':';
        pieces = codes " " ∷ format_int cfg.requests ∷ codes ",\n  " ∷ [];
      }
      ∷ record {
        name = codes "services";
        mark = b':';
        pieces = codes " " ∷ format_int cfg.services ∷ codes ",\n  " ∷ [];
      }
      ∷ record { name = codes "results"; mark = b':'; pieces = codes " {\n" ∷ [] }
      ∷ []

  pub baseline_text-fields :
      (ts : Bytes) (cfg : BenchConfig) (results : List (AlgoResult Time))
      → baseline_text show ts cfg results
        ≡ pour
            (codes "{\n  " ∷ [])
            (fields_text (config_fields ts cfg) (results_text show results (codes "  }\n}\n")))
  unfolding baseline_text
  baseline_text-fields ts cfg results = refl

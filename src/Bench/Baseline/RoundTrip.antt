-- ===== src/Bench/Baseline/RoundTrip.antt =====
-- `CompareBaseline` of bench/main.cpp on what `SaveBaseline` wrote.
use mathlib.Core.List.{append_assoc}
use bit_bridge.Prelude.{
  ℕ, zero, suc, ◌<◌, ◌^◌, ◌≡◌, refl, ap, sym, ◌∙◌, Bool, true, false, not, List, [], ◌∷◌, ◌++◌,
  Bytes, codes, format_nat, same_text, some, All, All-get_elem?, get_elem?-All, get_elem?, take,
  drop, length, returns, ℤ, pos, stoi_int, stoi_int-take, arith,
}
use bit_bridge.Bench.Arguments.{BenchConfig}
use bit_bridge.Bench.Stats.{AlgoResult}
use bit_bridge.Bench.Baseline.{
  find, quoted, needle, comma, result_text, results_text, baseline_text, is_negative, drops,
  compare_result, compare_results, compare_baseline, save_baseline,
}
use bit_bridge.Bench.Baseline.Search.{clean, find_here, find-clean}
use bit_bridge.Bench.Baseline.Passing.{before-Passes, from-Passes, config-Passes}
use bit_bridge.Bench.Baseline.Fields.{
  IsName, fields_text, find_fields, before_throughput, from_throughput, config_fields,
  result_text-fields, baseline_text-fields,
}

same_text_comm : (s t : Bytes) → same_text s t ≡ same_text t s
same_text_comm [] [] = refl
same_text_comm [] (d ∷ t) = refl
same_text_comm (c ∷ s) [] = refl
same_text_comm (c ∷ s) (d ∷ t) = ground (arith, same_text_comm s t)

find_name :
    (name s : Bytes)
    → find (quoted name) (b'"' ∷ (name ++ b'"' ∷ s)) ≡ some (b'"' ∷ (name ++ b'"' ∷ s))
find_name name s =
    let same = append_assoc name (b'"' ∷ []) s in
    ap (λ x. find (quoted name) (b'"' ∷ x)) (sym same)
    ∙ find_here (name ++ b'"' ∷ []) s b'"'
    ∙ ap (λ x. some (b'"' ∷ x)) same

module _ {Time : Type 0} (show : Time → Bytes) (shown : (t : Time) → clean (show t) ≡ true) where
  -- A result of which the file can hold the name and the throughput.
  pub record IsResult (r : AlgoResult Time) : Type 0 where
    pub named : IsName r.algo
    pub throughput_fits : r.throughput < 2 ^ 31

  -- Results of different names.
  abbrev pub Apart : List (AlgoResult Time) → Type 0
  Apart [] = Unit {0}
  Apart (r ∷ results) = All (λ s. same_text s.algo r.algo ≡ false) results × Apart results

  -- The search for a name passes the lines of a result of another name.
  find_result :
      (name : Bytes) (r : AlgoResult Time) (sep rest : Bytes)
      → IsName name
      → clean r.algo ≡ true
      → same_text name r.algo ≡ false
      → clean sep ≡ true
      → find (quoted name) (result_text show r sep rest) ≡ find (quoted name) rest
  find_result name r sep rest h k n c =
      let (_, (_, (_, (_, (_, (_, (completed, (errors, (error_pct, _))))))))) = h.reserved in
      ap (find (quoted name)) (result_text-fields show r sep rest)
      ∙ find-clean (name ++ b'"' ∷ []) (codes "    ") _ refl
      ∙ find_fields name [] (before_throughput show r) _ h.unquoted
          (before-Passes show name r h.no_colon k n completed errors error_pct)
      ∙ find_fields name [] (from_throughput show r sep) rest h.unquoted
          (from-Passes show shown name r sep h c)

  comma-clean : (results : List (AlgoResult Time)) → clean (comma results) ≡ true
  comma-clean [] = refl
  comma-clean (r ∷ results) = refl

  -- What the search for the name of a result finds: its lines, behind their spaces.
  find_results :
      (results : List (AlgoResult Time)) (i : ℕ) (tail : Bytes) {r : AlgoResult Time}
      → All IsResult results
      → Apart results
      → get_elem? results i ≡ some r
      → (sep rest : Bytes) × (find (quoted r.algo) (results_text show results tail)
          ≡ some (
              fields_text
                (before_throughput show r)
                (fields_text (from_throughput show r sep) rest)))
  unfolding results_text
  find_results [] i tail h a e = absurd (cc)
  find_results (s ∷ results) zero tail {r} h a e =
      let same : s ≡ r = cc in
      rw (← same) (
        comma results,
        results_text show results tail,
        ap (find (quoted s.algo)) (result_text-fields show s (comma results) _)
            ∙ find-clean (s.algo ++ b'"' ∷ []) (codes "    ") _ refl
            ∙ find_name s.algo _,
      )
  find_results (s ∷ results) (suc i) tail {r} h a e =
      let named = All-get_elem? IsResult results i h.1 e in
      let other = All-get_elem? (λ t. same_text t.algo s.algo ≡ false) results i a.0 e in
      let (sep, rest, found) = find_results results i tail h.1 a.1 e in
      (
        sep,
        rest,
        find_result r.algo s (comma results) _ named.named h.0.named.unquoted other
              (comma-clean results)
            ∙ found,
      )

  -- From there, the search for the throughput finds that of the result.
  find_throughput :
      (r : AlgoResult Time) (sep rest : Bytes)
      → IsResult r
      → (behind : Bytes) × (find needle
            (fields_text (before_throughput show r) (fields_text (from_throughput show r sep) rest))
          ≡ some (needle ++ (format_nat r.throughput ++ b',' ∷ behind)))
  find_throughput r sep rest h =
      let name = codes "throughput_per_sec" in
      let (_, (_, (_, (_, (_, (_, (_, (_, (_, (throughput, _)))))))))) = h.named.reserved in
      (
        _,
        find_fields name (codes ": ") (before_throughput show r) _ refl (
              before-Passes show name r refl h.named.unquoted
                (same_text_comm name r.algo ∙ throughput) refl refl refl)
            ∙ find_here (codes "throughput_per_sec\": ") _ b'"',
      )

  module _ (drops_by : ℕ → ℕ → ℤ → Bool) (cfg : BenchConfig)
      (level : (n : ℕ) → drops_by n n cfg.threshold_pct ≡ false)
      (percent : is_negative cfg.threshold_pct ≡ false) where
    drops_level : (n : ℕ) → drops drops_by cfg (pos n) n ≡ false
    drops_level zero = percent
    drops_level (suc n) = level (suc n)

    compare_result_steps :
        (content from at : Bytes) (r : AlgoResult Time) (baseline : ℤ)
        → find (quoted r.algo) content ≡ some from
        → find needle from ≡ some at
        → stoi_int (take 10 (drop (length needle) at)) ≡ returns baseline
        → compare_result drops_by cfg content r
          ≡ returns (not (drops drops_by cfg baseline r.throughput))
    unfolding compare_result
    compare_result_steps content from at r baseline e f g = ground arith

    compare_result-found :
        (content : Bytes) (r : AlgoResult Time) (sep rest : Bytes)
        → IsResult r
        → find (quoted r.algo) content
          ≡ some (
              fields_text
                (before_throughput show r)
                (fields_text (from_throughput show r sep) rest))
        → compare_result drops_by cfg content r ≡ returns true
    compare_result-found content r sep rest h found =
        let (behind, at) = find_throughput r sep rest h in
        compare_result_steps content _ _ r (pos r.throughput) found at
          (stoi_int-take r.throughput (b',' ∷ behind) h.throughput_fits refl)
        ∙ ap (λ b. returns (not b)) (drops_level r.throughput)

    returned_true :
        (content : Bytes) (results : List (AlgoResult Time))
        → All (λ r. compare_result drops_by cfg content r ≡ returns true) results
        → compare_results drops_by cfg content results ≡ returns true
    unfolding compare_results
    returned_true content [] h = refl
    returned_true content (r ∷ results) h = ground (arith, returned_true content results h.1)

    -- The baseline that `SaveBaseline` writes is read by `CompareBaseline`, and the results it was made of
    -- pass. Let the names of the results be different, without a quote, and none of them a name of the file,
    -- its time or the path of the binary, which have no quote either; let each throughput be an `int`, and let
    -- numbers be written without quotes. With any threshold that is not negative, where no drop is a drop by
    -- zero percent, each result finds its own throughput in the text.
    pub baseline_passes :
        (ts : Bytes) (written : BenchConfig) (results : List (AlgoResult Time))
        → All IsResult results
        → Apart results
        → clean ts ≡ true
        → clean written.lb_binary ≡ true
        → All
            (λ r. (same_text r.algo ts ≡ false) × (same_text r.algo written.lb_binary ≡ false))
            results
        → (text : Bytes) × (save_baseline show true true ts written results ≡ returns (some text))
          × (compare_baseline drops_by cfg (some text) results ≡ returns true)
    baseline_passes ts written results h a t b other =
        let text = baseline_text show ts written results in
        let every : All (λ r. compare_result drops_by cfg text r ≡ returns true) results =
          get_elem?-All (λ r. compare_result drops_by cfg text r ≡ returns true) results
            (λ i r e.
              let named = All-get_elem? IsResult results i h e in
              let (n, m) =
                All-get_elem?
                  (λ r.
                    (same_text r.algo ts ≡ false) × (same_text r.algo written.lb_binary ≡ false))
                  results i other e in
              let (sep, rest, found) = find_results results i (codes "  }\n}\n") h a e in
              compare_result-found text r sep rest named (
                ap (find (quoted r.algo)) (baseline_text-fields show ts written results)
                ∙ find-clean (r.algo ++ b'"' ∷ []) (codes "{\n  ") _ refl
                ∙ find_fields r.algo [] (config_fields show ts written) _ named.named.unquoted
                    (config-Passes show r.algo ts written named.named t b n m)
                ∙ found)) in
        (
          text,
          unfold save_baseline in refl,
          unfold compare_baseline in (returned_true text results every),
        )

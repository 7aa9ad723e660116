-- ===== src/Bench/Baseline/Passing.antt =====
-- The names in the text of `SaveBaseline` of bench/main.cpp that a search for another name passes.
use bit_bridge.Prelude.{◌≡◌, refl, true, false, Bytes, codes, format_nat, same_text, All}
use bit_bridge.Model.Node.{first_is}
use bit_bridge.Bench.Arguments.{BenchConfig}
use bit_bridge.Bench.Stats.{AlgoResult, err_pct}
use bit_bridge.Bench.Baseline.Search.{clean, format_nat-clean, format_int-clean}
use bit_bridge.Bench.Baseline.Fields.{
  Passes, IsName, number_field, before_throughput, from_throughput, config_fields,
}

number_field-Passes :
    (name : Bytes)
    → first_is b':' name ≡ false
    → (key text : Bytes) → clean key ≡ true
    → same_text name key ≡ false
    → clean text ≡ true
    → Passes name (number_field key text)
number_field-Passes name colon key text k n t = (k, n, colon, refl, (refl, (t, (refl, (refl, tt)))))

module _ {Time : Type 0} (show : Time → Bytes) where
  pub before-Passes :
      (name : Bytes) (r : AlgoResult Time)
      → first_is b':' name ≡ false
      → clean r.algo ≡ true
      → same_text name r.algo ≡ false
      → same_text name (codes "completed") ≡ false
      → same_text name (codes "errors") ≡ false
      → same_text name (codes "error_pct") ≡ false
      → All (Passes name) (before_throughput show r)
  before-Passes name r colon k n completed errors error_pct =
      let field = number_field-Passes name colon in
      (
        (k, n, colon, refl, (refl, (refl, tt))),
        (
          field _ (format_nat r.completed) refl completed (format_nat-clean r.completed),
          (
            field _ (format_nat r.errors) refl errors (format_nat-clean r.errors),
            (
              field _ (format_nat (err_pct r.completed r.errors)) refl error_pct
                  (format_nat-clean (err_pct r.completed r.errors)),
              tt,
            ),
          ),
        ),
      )

  pub config-Passes :
      (name ts : Bytes) (cfg : BenchConfig)
      → IsName name
      → clean ts ≡ true
      → clean cfg.lb_binary ≡ true
      → same_text name ts ≡ false
      → same_text name cfg.lb_binary ≡ false
      → All (Passes name) (config_fields show ts cfg)
  config-Passes name ts cfg h t b n m =
      let (timestamp, (binary, (concurrency, (requests, (services, (results, _)))))) = h.reserved in
      let number = format_int-clean in
      (
        (refl, timestamp, h.no_colon, refl, (refl, tt)),
        (
          (t, n, h.no_comma, refl, (refl, (refl, tt))),
          (
            (refl, binary, h.no_colon, refl, (refl, tt)),
            (
              (b, m, h.no_comma, refl, (refl, (refl, tt))),
              (
                (refl, concurrency, h.no_colon, refl, (refl, (number cfg.concurrency, (refl, tt)))),
                (
                  (refl, requests, h.no_colon, refl, (refl, (number cfg.requests, (refl, tt)))),
                  (
                    (refl, services, h.no_colon, refl, (refl, (number cfg.services, (refl, tt)))),
                    ((refl, results, h.no_colon, refl, (refl, tt)), tt),
                  ),
                ),
              ),
            ),
          ),
        ),
      )

module _ {Time : Type 0} (show : Time → Bytes) (shown : (t : Time) → clean (show t) ≡ true) where
  pub from-Passes :
      (name : Bytes) (r : AlgoResult Time) (sep : Bytes)
      → IsName name
      → clean sep ≡ true
      → All (Passes name) (from_throughput show r sep)
  from-Passes name r sep h k =
      let (
        _,
        (
          _,
          (
            _,
            (
              _,
              (
                _,
                (
                  _,
                  (
                    _,
                    (
                      _,
                      (
                        _,
                        (
                          throughput,
                          (peak, (bytes, (avg, (least, (p50, (p95, (p99, (greatest, _)))))))),
                        ),
                      ),
                    ),
                  ),
                ),
              ),
            ),
          ),
        ),
      ) =
        h.reserved in
      let field = number_field-Passes name h.no_colon in
      (
        field _ (format_nat r.throughput) refl throughput (format_nat-clean r.throughput),
        (
          field _ (format_nat r.peak_connections) refl peak (format_nat-clean r.peak_connections),
          (
            field _ (format_nat r.bytes_received) refl bytes (format_nat-clean r.bytes_received),
            (
              field _ (show r.avg_ms) refl avg (shown r.avg_ms),
              (
                field _ (show r.min_ms) refl least (shown r.min_ms),
                (
                  field _ (show r.p50_ms) refl p50 (shown r.p50_ms),
                  (
                    field _ (show r.p95_ms) refl p95 (shown r.p95_ms),
                    (
                      field _ (show r.p99_ms) refl p99 (shown r.p99_ms),
                      (
                        (
                          refl,
                          greatest,
                          h.no_colon,
                          refl,
                          (refl, (shown r.max_ms, (refl, (refl, (k, (refl, tt)))))),
                        ),
                        tt,
                      ),
                    ),
                  ),
                ),
              ),
            ),
          ),
        ),
      )

-- ===== src/Bench/Arguments/RoundTrip.antt =====
-- `ParseArgs` of bench/main.cpp on the arguments of a configuration.
use bit_bridge.Prelude.{
  ◌≡◌, refl, ap, ◌∙◌, Bool, true, false, if◌then◌else◌, List, [], ◌∷◌, Bytes, codes, ℤ, format_int,
  IsInt, Bool-cases, inl, inr, stoi_int-format_int, returns, value, unexpected, arith,
}
use bit_bridge.Model.Node.{is_empty, first_is}
use bit_bridge.Bench.Arguments.{
  BenchConfig, default_config, toggle, number, text, nothing, handler, parse_from, check_binary,
  parse_args, binary_not_found,
}

abbrev pub flag : Bool → Bytes → List Bytes → List Bytes
flag true name args = name ∷ args
flag false name args = args

-- The arguments that describe a configuration.
abbrev pub arguments : BenchConfig → List Bytes
arguments c = flag c.baseline (codes "--baseline") (
    flag c.compare (codes "--compare") (
      codes "--algo"
      ∷ c.algo
      ∷ codes "--concurrency"
      ∷ format_int c.concurrency
      ∷ codes "--requests"
      ∷ format_int c.requests
      ∷ codes "--services"
      ∷ format_int c.services
      ∷ codes "--threshold-pct"
      ∷ format_int c.threshold_pct
      ∷ codes "--backend-delay-ms"
      ∷ format_int c.backend_delay_ms
      ∷ codes "--baseline-file"
      ∷ c.baseline_file
      ∷ c.lb_binary
      ∷ []))

-- The numbers are those of an `int`, and the path of the binary is no option.
pub record IsSettable (c : BenchConfig) : Type 0 where
  pub concurrency_fits : IsInt c.concurrency
  pub requests_fits : IsInt c.requests
  pub services_fits : IsInt c.services
  pub threshold_fits : IsInt c.threshold_pct
  pub delay_fits : IsInt c.backend_delay_ms
  pub some_binary : is_empty c.lb_binary ≡ false
  pub no_option : first_is b'-' c.lb_binary ≡ false

handler-nothing : (arg : Bytes) → first_is b'-' arg ≡ false → handler arg ≡ nothing
unfolding handler
handler-nothing [] h = refl
handler-nothing (c ∷ s) h = rw h refl

number_step :
    (name : Bytes) (f : BenchConfig → ℤ → BenchConfig) (z : ℤ) (args : List Bytes) (c : BenchConfig)
    → handler name ≡ number f
    → IsInt z
    → parse_from (name ∷ format_int z ∷ args) c ≡ parse_from args (f c z)
unfolding parse_from
number_step name f z args c e h = ground (arith, stoi_int-format_int z h)

text_step :
    (name : Bytes) (f : BenchConfig → Bytes → BenchConfig) (v : Bytes) (args : List Bytes)
    (c : BenchConfig)
    → handler name ≡ text f
    → parse_from (name ∷ v ∷ args) c ≡ parse_from args (f c v)
unfolding parse_from
text_step name f v args c e = ground arith

toggle_step :
    (name : Bytes) (f : BenchConfig → BenchConfig) (args : List Bytes) (c : BenchConfig)
    → handler name ≡ toggle f
    → parse_from (name ∷ args) c ≡ parse_from args (f c)
unfolding parse_from
toggle_step name f [] c e = ground arith
toggle_step name f (v ∷ args) c e = ground arith

flag_step :
    (b : Bool) (name : Bytes) (f : BenchConfig → BenchConfig) (args : List Bytes) (c : BenchConfig)
    → handler name ≡ toggle f
    → parse_from (flag b name args) c ≡ parse_from args (if b then f c else c)
flag_step true name f args c e = toggle_step name f args c e
flag_step false name f args c e = refl

with_baseline :
    (b : Bool)
    → (if b then record default_config { baseline = true } else default_config)
      ≡ record default_config { baseline = b }
unfolding default_config
with_baseline true = refl
with_baseline false = refl

with_compare :
    (b d : Bool)
    → (if b
        then record default_config { baseline = d; compare = true }
        else record default_config { baseline = d })
      ≡ record default_config { baseline = d; compare = b }
unfolding default_config
with_compare true d = refl
with_compare false d = refl

binary_step :
    (arg : Bytes) (c : BenchConfig)
    → first_is b'-' arg ≡ false
    → is_empty c.lb_binary ≡ true
    → parse_from (arg ∷ []) c ≡ returns (value (record c { lb_binary = arg }))
unfolding parse_from
binary_step arg c h e = ground (arith, handler-nothing arg h)

parse_from-arguments :
    (c : BenchConfig) → IsSettable c → parse_from (arguments c) default_config ≡ returns (value c)
unfolding handler default_config
parse_from-arguments c h =
    flag_step c.baseline (codes "--baseline") (λ d. record d { baseline = true }) _ _ refl
    ∙ ap (parse_from _) (with_baseline c.baseline)
    ∙ flag_step c.compare (codes "--compare") (λ d. record d { compare = true }) _ _ refl
    ∙ ap (parse_from _) (with_compare c.compare c.baseline)
    ∙ text_step (codes "--algo") (λ d v. record d { algo = v }) c.algo _ _ refl
    ∙ number_step (codes "--concurrency") (λ d n. record d { concurrency = n }) c.concurrency _ _
        refl h.concurrency_fits
    ∙ number_step (codes "--requests") (λ d n. record d { requests = n }) c.requests _ _ refl
        h.requests_fits
    ∙ number_step (codes "--services") (λ d n. record d { services = n }) c.services _ _ refl
        h.services_fits
    ∙ number_step (codes "--threshold-pct") (λ d n. record d { threshold_pct = n }) c.threshold_pct
        _ _ refl h.threshold_fits
    ∙ number_step (codes "--backend-delay-ms") (λ d n. record d { backend_delay_ms = n })
        c.backend_delay_ms _ _ refl h.delay_fits
    ∙ text_step (codes "--baseline-file") (λ d v. record d { baseline_file = v }) c.baseline_file _
        _ refl
    ∙ binary_step c.lb_binary _ h.no_option refl

-- Every configuration can be asked for. Where the numbers of a configuration are those of an `int` and the
-- path of its binary is not empty and no option, `ParseArgs` of the arguments that describe it gives the
-- configuration back in every field, if there is such a file, and ends the program otherwise.
pub parse_args-arguments :
    (exists : Bytes → Bool) (c : BenchConfig)
    → IsSettable c
    → parse_args exists (arguments c)
      ≡ returns (if exists c.lb_binary then value c else unexpected (binary_not_found c.lb_binary))
unfolding parse_args check_binary
parse_args-arguments exists c h =
    let parsed = parse_from-arguments c h in
    let named = h.some_binary in
    elim (Bool-cases (exists c.lb_binary)) [
      | inl there ↦ ground (arith, parsed, named)
      | inr missing ↦ ground (arith, parsed, named)
    ]

-- ===== src/Bench/Arguments.antt =====
-- The arguments of bench/main.cpp.
pub mod RoundTrip
use bit_bridge.Prelude.{
  ◌==◌, Bool, true, false, not, ◌&&◌, if◌then◌else◌, List, [], ◌∷◌, Bytes, codes, same_text, ℤ, pos,
  stoi_int, Outcome, returns, ◌>>=◌, Expected, value, unexpected,
}
use bit_bridge.Model.Node.{is_empty, first_is}

pub record BenchConfig : Type 0 where
  pub lb_binary : Bytes
  pub algo : Bytes
  pub concurrency : ℤ
  pub requests : ℤ
  pub services : ℤ
  pub threshold_pct : ℤ
  pub backend_delay_ms : ℤ
  pub baseline : Bool
  pub compare : Bool
  pub baseline_file : Bytes

unfoldable pub default_config : BenchConfig
default_config = record {
  lb_binary = [];
  algo = codes "both";
  concurrency = pos 50;
  requests = pos 1000;
  services = pos 5;
  threshold_pct = pos 15;
  backend_delay_ms = pos 0;
  baseline = false;
  compare = false;
  baseline_file = codes "bench/baselines/baseline.json";
}

-- Why `Die` ends the program.
pub data Fatal : Type 0 where
  needs_argument : Bytes → Fatal
  usage : Fatal
  binary_not_found : Bytes → Fatal

-- What the map of handlers has for an argument.
pub data Handler : Type 0 where
  toggle : (BenchConfig → BenchConfig) → Handler
  number : (BenchConfig → ℤ → BenchConfig) → Handler
  text : (BenchConfig → Bytes → BenchConfig) → Handler
  nothing : Handler

unfoldable pub handler : Bytes → Handler
handler arg =
    if same_text arg (codes "--baseline")
    then toggle (λ c. record c { baseline = true })
    else if same_text arg (codes "--compare")
    then toggle (λ c. record c { compare = true })
    else if same_text arg (codes "--algo")
    then text (λ c v. record c { algo = v })
    else if same_text arg (codes "--concurrency")
    then number (λ c n. record c { concurrency = n })
    else if same_text arg (codes "--requests")
    then number (λ c n. record c { requests = n })
    else if same_text arg (codes "--services")
    then number (λ c n. record c { services = n })
    else if same_text arg (codes "--threshold-pct")
    then number (λ c n. record c { threshold_pct = n })
    else if same_text arg (codes "--baseline-file")
    then text (λ c v. record c { baseline_file = v })
    else if same_text arg (codes "--backend-delay-ms")
    then number (λ c n. record c { backend_delay_ms = n })
    else nothing

-- An argument without a handler: the first that does not start with a dash is the binary.
abbrev pub positional : Bytes → BenchConfig → BenchConfig
positional arg c =
    if not (first_is b'-' arg) && is_empty c.lb_binary then record c { lb_binary = arg } else c

-- The loop over the arguments; `nextInt` and `nextStr` take the next one.
unfoldable pub parse_from : List Bytes → BenchConfig → Outcome (Expected Fatal BenchConfig)
unfolding handler stoi_int
parse_from [] c = returns (value c)
parse_from (arg ∷ []) c = elim (handler arg) [
  | toggle f ↦ returns (value (f c))
  | number f ↦ returns (unexpected (needs_argument arg))
  | text f ↦ returns (unexpected (needs_argument arg))
  | nothing ↦ returns (value (positional arg c))
]
parse_from (arg ∷ v ∷ args) c = elim (handler arg) [
  | toggle f ↦ parse_from (v ∷ args) (f c)
  | number f ↦ stoi_int v >>= (λ n. parse_from args (f c n))
  | text f ↦ parse_from args (f c v)
  | nothing ↦ parse_from (v ∷ args) (positional arg c)
]

-- The checks behind the loop; `exists` says which files there are.
unfoldable pub check_binary :
    (Bytes → Bool) → Expected Fatal BenchConfig → Expected Fatal BenchConfig
check_binary exists (unexpected e) = unexpected e
check_binary exists (value c) =
    if is_empty c.lb_binary
    then unexpected usage
    else if not (exists c.lb_binary)
    then unexpected (binary_not_found c.lb_binary)
    else value c

unfoldable pub parse_args : (Bytes → Bool) → List Bytes → Outcome (Expected Fatal BenchConfig)
unfolding parse_from check_binary default_config
parse_args exists args =
    parse_from args default_config >>= (λ parsed. returns (check_binary exists parsed))

-- The algorithms that `main` measures.
unfoldable pub algos_of : BenchConfig → List Bytes
algos_of c =
    if same_text c.algo (codes "p2c")
    then codes "p2c" ∷ []
    else if same_text c.algo (codes "consistent-hash")
    then codes "consistent-hash" ∷ []
    else codes "p2c" ∷ codes "consistent-hash" ∷ []

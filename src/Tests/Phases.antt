-- ===== src/Tests/Phases.antt =====
-- The phases and the echo services of bench/main.cpp on small inputs.
use mathlib.Core.Option
use bit_bridge.Prelude.{
  ℕ, ◌*◌, ◌/◌, ◌%◌, ◌^◌, ◌==◌, ◌<◌, ◌≡◌, refl, true, false, if◌then◌else◌, List, [], ◌∷◌, map,
  Bytes, codes, format_nat, same_text, same_text_self, length, get_elem?, All, Option, none, some,
  pos, returns, throws, hash_collision, value, ◌⊎◌, inl, inr, arith,
}
use bit_bridge.Model.Node.{is_valid_ipv4}
use bit_bridge.Model.Balancer
use bit_bridge.Serialization.Yaml.{Yaml}
use bit_bridge.Serialization.Load.{loaded, load}
use bit_bridge.System.{System}
use bit_bridge.System.Startup.{AnyState, start_up}
use bit_bridge.System.Program.{KeepsRunning}
use bit_bridge.Bench.Load
use bit_bridge.Bench.Arguments.{BenchConfig, algos_of}
use bit_bridge.Bench.Arguments.RoundTrip.{arguments, parse_args-arguments}
use bit_bridge.Bench.Baseline.Search.{format_nat-clean}
use bit_bridge.Bench.Stats.{Clock}
use bit_bridge.Bench.Echo.{Event, accepted, read_done, timer, written, make_echo, run}
use bit_bridge.Bench.Echo.Stages.{IsAnswered}
use bit_bridge.Bench.Echo.Answers.{exchange, completed, echo_answers}
use bit_bridge.Bench.TempConfig.{print_lines, config_lines}
use bit_bridge.Bench.TempConfig.Blocks.{block_lines, document_node}
use bit_bridge.Bench.TempConfig.Loads.{temp_config, config_block}
use bit_bridge.Bench.Program.Serves.{bench_serves}
use bit_bridge.Bench.Phase.{World, reached}
use bit_bridge.Bench.Program.{spawn_echo_services, main}
use bit_bridge.Bench.Program.Passes.{IsDone, bench_passes}
use bit_bridge.Tests.Routing.{remainder}
use bit_bridge.Tests.System.{any_port}
use bit_bridge.Tests.Serialization.{
  Tree, trees, text, flag, number, of_map, of_sequence, child, elements, as_text, as_flag,
  as_number, child_map, elements_sequence, number_number,
}
use bit_bridge.Tests.Bench.{turns, numbers, cfg, drops_by}

-- Two clients; the first is answered after a delay, the second breaks off, and then an accept fails.
abbrev echo_turns : List Event
echo_turns =
    accepted false
    ∷ accepted false
    ∷ read_done 0 false
    ∷ timer 0
    ∷ read_done 1 true
    ∷ written 0
    ∷ accepted true
    ∷ accepted false
    ∷ []

echo_answers_example :
    All (IsAnswered (pos 5)) (run echo_turns (make_echo (pos 5))).conns
    × (length (run echo_turns (make_echo (pos 5))).conns ≡ 2)
    × (get_elem? (run (exchange 0) (run echo_turns (make_echo (pos 5)))).conns 0
        ≡ Option.map completed (get_elem? (run echo_turns (make_echo (pos 5))).conns 0))
echo_answers_example = echo_answers (pos 5) echo_turns 0

abbrev two_ports : List ℕ
two_ports = 19100 ∷ 19101 ∷ []

-- The library of trees with files that are trees, or the text of a benchmark's configuration.
abbrev sample : Bytes
sample = print_lines (block_lines (config_block (temp_config (codes "p2c") 18090 two_ports)))

abbrev sample_node : Tree
sample_node = document_node trees (config_block (temp_config (codes "p2c") 18090 two_ports))

abbrev parse : Tree ⊎ Bytes → Option Tree
parse (inl t) = some t
parse (inr s) = if same_text s sample then some sample_node else none

abbrev files : Yaml
files = record {
  Node = Tree;
  child = child;
  elements = elements;
  as_text = as_text;
  as_flag = as_flag;
  as_number = as_number;
  of_text = text;
  of_flag = flag;
  of_number = number;
  of_map = of_map;
  of_sequence = of_sequence;
  Document = Tree ⊎ Bytes;
  emit = λ t. inl t;
  parse = parse;
  child_map = child_map;
  elements_sequence = elements_sequence;
  text_text = λ s. refl;
  flag_flag = λ b. refl;
  number_number = number_number;
  parse_emit = λ t. refl;
}

parse-sample : parse (inr sample) ≡ some sample_node
parse-sample = rw (same_text_self sample) refl

bench_serves_example :
    (load files
        (some (inr (print_lines (config_lines (codes "p2c") 18090 two_ports))))
        Balancer.defaults
      ≡ loaded (temp_config (codes "p2c") 18090 two_ports))
    × (((s : System AnyState) × (start_up any_port 2
              (value (temp_config (codes "p2c") 18090 two_ports))
              1
            ≡ returns (value s))
          × KeepsRunning is_valid_ipv4 remainder 5 s)
        ⊎ ((codes "p2c" ≡ codes "consistent-hash")
            × ((i : ℕ) × (start_up any_port 2 (value (temp_config (codes "p2c") 18090 two_ports)) 1
                  ≡ throws (hash_collision i)))))
bench_serves_example =
    bench_serves files is_valid_ipv4 any_port remainder 5 1 (λ p. some p) 2 two_ports (λ s. inr s)
      (codes "p2c") Balancer.defaults (λ p q h e. cc) (omega arith) (omega arith)
      (unfold spawn_echo_services in refl) (inl refl) parse-sample (unfold is_valid_ipv4 in refl)
      refl

-- A clock whose rates are an `int`.
abbrev clock : Clock
clock = record numbers { rate = λ n ms. n * 1000 / ms % 2 ^ 31 }

rate_fits : (k t : ℕ) → k * 1000 / t % 2 ^ 31 < 2 ^ 31
rate_fits k t = omega arith

-- The child's port answers the third attempt.
abbrev world : World ℕ
world = record {
  writable = true;
  forked = some 7;
  answers = λ k. k == 2;
  turns = turns;
  wall_ms = 10;
}

abbrev small : BenchConfig
small = record cfg { requests = pos 3; concurrency = pos 2; services = pos 2 }

forked_child : (algo : Bytes) (pid : ℕ) → world.forked ≡ some pid → 0 < pid
forked_child algo pid e = let same : ◌≡◌ {A = ℕ} 7 pid = cc in omega (arith, same)

measured : IsDone clock small 3 world
measured = record {
  written = refl;
  pid = 7;
  child = refl;
  attempt = 2;
  in_time = omega arith;
  answered = refl;
  stopped = unfold Load.run Load.start in refl;
}

bench_passes_example :
    main clock format_nat drops_by
      (λ path. true)
      (arguments small)
      (λ p. some p)
      (λ algo. world)
      true
      true
      (codes "20260101_120000")
      none
    ≡ reached 0 []
bench_passes_example =
    bench_passes clock small 3 format_nat format_nat-clean drops_by (λ path. true) (arguments small)
      (λ p. some p) (λ algo. world) (codes "20260101_120000") none two_ports
      (parse_args-arguments (λ path. true) small
        (record {
          concurrency_fits = omega arith;
          requests_fits = omega arith;
          services_fits = omega arith;
          threshold_fits = omega arith;
          delay_fits = omega arith;
          some_binary = refl;
          no_option = refl;
        }))
      (unfold spawn_echo_services in refl) (omega arith) refl forked_child
      (unfold algos_of in (measured, (measured, tt))) rate_fits (λ n. ground arith) refl
      ((refl, refl, refl), ((refl, refl, refl), tt)) refl

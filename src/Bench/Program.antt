-- ===== src/Bench/Program.antt =====
-- `SpawnEchoServices` and `main` of bench/main.cpp.
pub mod Passes
pub mod Ports
pub mod Serves
use bit_bridge.Prelude.{
  ℕ, zero, suc, ◌+◌, ◌%◌, ◌^◌, Bool, List, [], ◌∷◌, Bytes, Option, none, some, ℤ, pos, negsuc,
  Outcome, returns, throws, system_error, length_error, Expected, value, unexpected,
}
use bit_bridge.Bench.Arguments.{BenchConfig, Fatal, parse_args, algos_of}
use bit_bridge.Bench.Stats.{Clock}
use bit_bridge.Bench.Main.{report}
use bit_bridge.Bench.Phase.{
  World, Processes, Ended, died, undefined, aborted, ◌>>=◌, of_outcome, run_phases,
}

abbrev pub service_base_port : ℕ
service_base_port = 19100

-- The loop from `i` on. `bound` says which port the acceptor of an echo service has that asks for one, and
-- `none` where its constructor throws.
unfoldable pub spawn_from : (ℕ → Option ℕ) → ℕ → ℕ → Outcome (List ℕ)
spawn_from bound i zero = returns []
spawn_from bound i (suc left) = elim (bound ((service_base_port + i) % 2 ^ 16)) [
  | none ↦ throws system_error
  | some port ↦ elim (spawn_from bound (suc i) left) [
    | throws x ↦ throws x
    | returns ports ↦ returns (port ∷ ports)
  ]
]

-- `reserve` of a number below zero throws.
unfoldable pub spawn_echo_services : (ℕ → Option ℕ) → ℤ → Outcome (List ℕ)
unfolding spawn_from
spawn_echo_services bound (pos count) = spawn_from bound 0 count
spawn_echo_services bound (negsuc n) = throws length_error

module _ (clock : Clock) (show : clock.Time → Bytes) (drops_by : ℕ → ℕ → ℤ → Bool) where
  open clock use {Time}

  -- The rest of `main` behind the ports; `front` and `back` of no ports are undefined.
  unfoldable pub measure :
      (Bytes → World Time)
      → Bool
      → Bool
      → Bytes
      → Option Bytes
      → BenchConfig
      → List ℕ
      → Processes
      → Ended ℕ
  unfolding run_phases report
  measure world has_parent opens ts file cfg [] ps = undefined ps
  measure world has_parent opens ts file cfg (port ∷ ports) ps =
      run_phases clock cfg (port ∷ ports) world (algos_of cfg) ps >>= λ results ps.
      of_outcome (report show drops_by has_parent opens ts cfg file results) ps

  abbrev pub with_arguments :
      (ℕ → Option ℕ)
      → (BenchConfig → List ℕ → Processes → Ended ℕ)
      → Outcome (Expected Fatal BenchConfig)
      → Ended ℕ
  with_arguments bound rest (throws x) = aborted x []
  with_arguments bound rest (returns (unexpected e)) = died []
  with_arguments bound rest (returns (value cfg)) =
      of_outcome (spawn_echo_services bound cfg.services) [] >>= λ ports ps. rest cfg ports ps

  -- `main`, with its exit code where it returns.
  unfoldable pub main :
      (Bytes → Bool)
      → List Bytes
      → (ℕ → Option ℕ)
      → (Bytes → World Time)
      → Bool
      → Bool
      → Bytes
      → Option Bytes
      → Ended ℕ
  unfolding measure spawn_echo_services
  main exists args bound world has_parent opens ts file =
      with_arguments bound (measure world has_parent opens ts file) (parse_args exists args)

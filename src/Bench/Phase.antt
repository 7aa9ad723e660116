-- ===== src/Bench/Phase.antt =====
-- `StartLb`, `StopLb`, `WaitPort`, `RunLoad` and `RunPhase` of bench/main.cpp. A process is its number and
-- the text of the file that it was given; the state is the load balancers that run.
pub mod Processes
pub mod Cases
pub mod Ends
use bit_bridge.Prelude.{
  ℕ, zero, suc, ◌==◌, Bool, if◌then◌else◌, List, [], ◌∷◌, ◌++◌, Bytes, length, Option, none, some,
  ℤ, pos, negsuc, Outcome, returns, throws, Exception, length_error,
}
use bit_bridge.Bench.Load
use bit_bridge.Bench.Load.{LoadContext, Event}
use bit_bridge.Bench.Arguments.{BenchConfig}
use bit_bridge.Bench.Stats.{Clock, AlgoResult, LoadResult, compute_stats}
use bit_bridge.Bench.TempConfig.{write_temp_config}

abbrev pub lb_port : ℕ
lb_port = 18090

abbrev pub Processes : Type 0
Processes = List (ℕ × Bytes)

-- How a part of `main` ends: it returns; `Die` exits with 1; an exception leaves `main`; the event loop of the
-- load waits for more; or the behaviour is undefined. Each with the load balancers that run then.
pub data Ended (A : Type 0) : Type 0 where
  reached : A → Processes → Ended A
  died waiting undefined : Processes → Ended A
  aborted : Exception → Processes → Ended A

infixl 5 ◌>>=◌
abbrev pub ◌>>=◌ : {A B : Type 0} → Ended A → (A → Processes → Ended B) → Ended B
reached a ps >>= f = f a ps
died ps >>= f = died ps
waiting ps >>= f = waiting ps
undefined ps >>= f = undefined ps
aborted x ps >>= f = aborted x ps

abbrev pub of_outcome : {A : Type 0} → Outcome A → Processes → Ended A
of_outcome (returns a) ps = reached a ps
of_outcome (throws x) ps = aborted x ps

-- The other side of a phase: whether the configuration can be written; the child's number, `none` where `fork`
-- fails; which attempts to connect succeed; the turns of the load's event loop; and the time it took.
pub record World (Time : Type 0) : Type 0 where
  pub writable : Bool
  pub forked : Option ℕ
  pub answers : ℕ → Bool
  pub turns : List (Event Time)
  pub wall_ms : Time

unfoldable pub start_lb : Option ℕ → Bytes → Processes → Ended ℕ
start_lb none text ps = died ps
start_lb (some pid) text ps = reached pid ((pid, text) ∷ ps)

-- `kill` and `waitpid`: the load balancer has ended when the second returns.
unfoldable pub remove : ℕ → Processes → Processes
remove pid [] = []
remove pid ((p, text) ∷ ps) =
    let rest = remove pid ps in if p == pid then rest else (p, text) ∷ rest

unfoldable pub stop_lb : ℕ → Processes → Processes
unfolding remove
stop_lb zero ps = ps
stop_lb (suc n) ps = remove (suc n) ps

-- The loop from attempt `i` on, for the attempts that are left.
unfoldable pub wait_from : ℕ → ℕ → (ℕ → Bool) → Processes → Ended (Unit {0})
wait_from zero i answers ps = died ps
wait_from (suc left) i answers ps =
    let rest = wait_from left (suc i) answers ps in if answers i then reached tt ps else rest

unfoldable pub wait_port : (ℕ → Bool) → Processes → Ended (Unit {0})
wait_port answers ps = wait_from 100 0 answers ps

module _ (clock : Clock) where
  open clock use {Time}

  -- What `RunLoad` returns once its event loop is stopped.
  abbrev pub load_of : LoadContext Time → Processes → Ended (LoadResult Time)
  load_of c ps =
      if c.stopped
      then reached
          (record {
            conns = c.results;
            peak_connections = c.peak_inflight;
            bytes_received = c.bytes_received;
          })
          ps
      else waiting ps

  -- No connection is launched up to a concurrency below zero.
  abbrev pub at_once : ℤ → ℕ
  at_once (pos n) = n
  at_once (negsuc n) = 0

  -- `reserve` of a number below zero throws.
  unfoldable pub run_load : ℤ → ℤ → List (Event Time) → Processes → Ended (LoadResult Time)
  run_load (pos total) concurrency turns ps =
      load_of (Load.run turns (Load.start Time total (at_once concurrency))) ps
  run_load (negsuc n) concurrency turns ps = aborted length_error ps

  -- `RunPhase` behind the configuration.
  unfoldable pub run_configured :
      BenchConfig → Bytes → List ℕ → World Time → Bytes → Processes → Ended (AlgoResult Time)
  unfolding start_lb wait_port run_load stop_lb
  run_configured cfg algo ports world text ps = start_lb world.forked text ps >>= λ pid ps.
      wait_port world.answers ps >>= λ _ ps.
      run_load cfg.requests cfg.concurrency world.turns ps >>= λ load ps.
      of_outcome (compute_stats clock algo load world.wall_ms (length ports)) (stop_lb pid ps)

  unfoldable pub run_phase :
      BenchConfig → Bytes → List ℕ → World Time → Processes → Ended (AlgoResult Time)
  unfolding run_configured
  run_phase cfg algo ports world ps = elim (write_temp_config world.writable algo lb_port ports) [
    | none ↦ died ps
    | some (path, text) ↦ run_configured cfg algo ports world text ps
  ]

  -- The loop of `main` over the algorithms.
  unfoldable pub run_phases :
      BenchConfig
      → List ℕ
      → (Bytes → World Time)
      → List Bytes
      → Processes
      → Ended (List (AlgoResult Time))
  unfolding run_phase
  run_phases cfg ports world [] ps = reached [] ps
  run_phases cfg ports world (algo ∷ algos) ps =
      run_phase cfg algo ports (world algo) ps >>= λ r ps.
      run_phases cfg ports world algos ps >>= λ rs ps. reached (r ∷ rs) ps

-- ===== src/Bench/Load.antt =====
-- The load of bench/main.cpp: `LoadContext`, `LaunchWave` and the handlers of a connection. They run one at
-- a time, in the strand of one thread, so an atomic's operations are those of a number.
pub mod Counts
pub mod Turns
pub mod Runs
use bit_bridge.Prelude.{
  ℕ, zero, suc, ◌+◌, ◌-◌, ltb, leb, Bool, true, false, ◌&&◌, if◌then◌else◌, List, [], ◌∷◌, ◌++◌,
  get_elem?, set, none, some,
}
use bit_bridge.Model.Balancer.{erase_at}

-- `double` times are of some type.
pub record ConnResult (Time : Type 0) : Type 0 where
  pub ok : Bool
  pub ms : Time
  pub bytes : ℕ

-- The operation that a live connection waits for; a reading one has read some bytes.
pub data Phase : Type 0 where
  connecting writing : Phase
  reading : ℕ → Phase

-- `inflight` and `done` count the live and the ended connections. What the handlers of a connection hold
-- stands in `connections`; `stopped` is `ioc.stop()`.
pub record LoadContext (Time : Type 0) : Type 0 where
  pub results : List (ConnResult Time)
  pub connections : List Phase
  pub inflight : ℕ
  pub peak_inflight : ℕ
  pub launched : ℕ
  pub done : ℕ
  pub bytes_received : ℕ
  pub total : ℕ
  pub concurrency : ℕ
  pub stopped : Bool

-- How an operation ends: well, and a read with so many bytes; with `eof` or `connection_reset`; or with
-- another error, as after the connect timeout, which closes the socket.
pub data Completion : Type 0 where
  success : ℕ → Completion
  closed error : Completion

-- The operation of the live connection at an index ends, at a time since its start.
pub record Event (Time : Type 0) : Type 0 where
  pub index : ℕ
  pub completion : Completion
  pub ms : Time

module _ {Time : Type 0} where
  -- One round of the loop of `LaunchWave`.
  unfoldable pub launch_one : LoadContext Time → LoadContext Time
  launch_one c =
      let current = c.inflight + 1 in
      record c {
        inflight = current;
        launched = c.launched + 1;
        peak_inflight = if ltb c.peak_inflight current then current else c.peak_inflight;
        connections = c.connections ++ connecting ∷ [];
      }

  -- The loop, for at most so many rounds.
  unfoldable pub launch : ℕ → LoadContext Time → LoadContext Time
  unfolding launch_one
  launch zero c = c
  launch (suc fuel) c =
      let rest = launch fuel (launch_one c) in
      if ltb c.inflight c.concurrency && ltb c.launched c.total then rest else c

  -- A round launches one connection of those that are left.
  unfoldable pub launch_wave : LoadContext Time → LoadContext Time
  unfolding launch
  launch_wave c = if leb c.total c.launched then c else launch (c.total - c.launched) c

  -- The end of a connection: its result, the counters, the next wave, and the stop.
  unfoldable pub finish : ℕ → Bool → Time → ℕ → LoadContext Time → LoadContext Time
  unfolding launch_wave
  finish i ok ms bytes c =
      let next = launch_wave (record c {
        results = c.results ++ record { ok = ok; ms = ms; bytes = bytes } ∷ [];
        bytes_received = if ok then c.bytes_received + bytes else c.bytes_received;
        connections = erase_at i c.connections;
        inflight = c.inflight - 1;
        done = c.done + 1;
      }) in
      if leb next.total next.done then record next { stopped = true } else next

  unfoldable pub wait_for : ℕ → Phase → LoadContext Time → LoadContext Time
  wait_for i p c = record c { connections = set c.connections i p }

  unfoldable pub on_connect : ℕ → Completion → Time → LoadContext Time → LoadContext Time
  unfolding finish wait_for
  on_connect i (success n) ms c = wait_for i writing c
  on_connect i closed ms c = finish i false ms 0 c
  on_connect i error ms c = finish i false ms 0 c

  unfoldable pub on_write_done : ℕ → Completion → Time → LoadContext Time → LoadContext Time
  unfolding finish wait_for
  on_write_done i (success n) ms c = wait_for i (reading 0) c
  on_write_done i closed ms c = finish i false ms 0 c
  on_write_done i error ms c = finish i false ms 0 c

  unfoldable pub on_read_some : ℕ → ℕ → Completion → Time → LoadContext Time → LoadContext Time
  unfolding finish wait_for
  on_read_some i bytes_read (success n) ms c = wait_for i (reading (bytes_read + n)) c
  on_read_some i bytes_read closed ms c = finish i true ms bytes_read c
  on_read_some i bytes_read error ms c = finish i false ms bytes_read c

  unfoldable pub handle : Phase → Event Time → LoadContext Time → LoadContext Time
  unfolding on_connect on_write_done on_read_some
  handle connecting e c = on_connect e.index e.completion e.ms c
  handle writing e c = on_write_done e.index e.completion e.ms c
  handle (reading bytes_read) e c = on_read_some e.index bytes_read e.completion e.ms c

  -- A turn of the event loop; without a live connection at the index nothing happens.
  unfoldable pub step : Event Time → LoadContext Time → LoadContext Time
  unfolding handle
  step e c =
      if c.stopped
      then c
      else elim (get_elem? c.connections e.index) [ none ↦ c | some p ↦ handle p e c ]

  unfoldable pub run : List (Event Time) → LoadContext Time → LoadContext Time
  unfolding step
  run [] c = c
  run (e ∷ es) c = run es (step e c)

-- The context of `RunLoad`.
unfoldable pub fresh : (Time : Type 0) → ℕ → ℕ → LoadContext Time
fresh Time total concurrency = record {
  results = [];
  connections = [];
  inflight = 0;
  peak_inflight = 0;
  launched = 0;
  done = 0;
  bytes_received = 0;
  total = total;
  concurrency = concurrency;
  stopped = false;
}

-- `RunLoad` up to its event loop, with the first wave.
unfoldable pub start : (Time : Type 0) → ℕ → ℕ → LoadContext Time
unfolding launch_wave fresh
start Time total concurrency = launch_wave (fresh Time total concurrency)

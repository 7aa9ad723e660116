-- ===== src/Lib.antt =====
-- Bit Bridge: a layer 4 load balancer, a desktop tool that edits its configuration and a benchmark.
-- `bit_bridge_lb` (core/main.cpp) loads a configuration (lib/), makes a pool of backends, one of two routing
-- strategies, a TCP proxy and, if wanted, a health checker, and runs one Boost.Asio event loop on one
-- thread. The proxy asks the strategy for a backend for each client and starts a session, which relays bytes
-- both ways; the health checker sets the flags that the strategies read; a session counts on its backend's
-- counter as long as it lives, and one strategy reads the counters.
--
-- The desktop tool (ui/) reads its settings, keeps a configuration behind a window and saves it to the file
-- that `bit_bridge_lb` loads. The benchmark (bench/) drives the load balancer with connections.
--
-- The files:
--   Prelude: shared types. `Outcome` is a call that returns or throws, `Expected` is `std::expected`,
--   `std::string` is the list of its bytes, `std::vector` a list.
--   Model: lib/model. Node is ServiceNode with its check of addresses, Balancer is LoadBalancerConfig,
--   HealthCheck and Connection are the two smaller configurations. A setter is a function of the record.
--   Serialization: lib/serialization. Yaml is what is asked of yaml-cpp, Load has both functions
--   of YamlConfigSerializer, and Serializer is IConfigSerializer, a record of the two and their contract, which
--   that class fills and the window takes.
--   State: core/state. Service is ServiceState with each counter modulo 2 ^ 64, Pool is ServicePool, and
--   Atomic takes the compare-and-swap loop of `DecrementConnections` apart, for any number of threads.
--   Routing: core/routing. Strategy is IRoutingStrategy as a record of a state, a call and its laws, and
--   Strategies fills it twice; Fnv is FnvHash.hpp; Ring is ConsistentHashStrategy, with its constructor in
--   Points, `std::ranges::sort` in Sort, `std::ranges::lower_bound` in Bound and `SelectService` in Select;
--   Xoshiro is Xoshiro256; P2c is P2CStrategy.
--   Health: core/health. Checker is HealthChecker: its handlers, and `step`, one turn of the event loop.
--   Proxy: core/proxy. Session is one client's connection: each handler is a function, `step` runs one that
--   waits, and `handlers` counts those that hold the session. TcpProxy is the accept loop with its live
--   sessions: `handle_session` runs a handler of one and, with its last handler, the destructor.
--   System: core/main.cpp. `step` is one turn of the event loop: of the proxy, of the health checker or of
--   the signal handler, over one pool; Startup is `main` up to the loop, with its choice of a strategy of
--   either kind (Routing.Either); what loading the configuration gives is an argument.
--   System/Deployed: the desktop tool's file under the load balancer.
--   Ui: ui/. Toml is what is asked of toml++, Settings is AppSettings, with the lines of its file
--   in Settings.Lines, MainFrame has the state and the handlers
--   of MainFrame, a handler giving the window and its message box; MainFrame.Events has the events of the
--   window and `step`, which runs the handler of one; App is BitBridgeApp's `OnInit`.
--   Bench: bench/main.cpp. Load is the load generator: `LoadContext` with its live connections, `LaunchWave`,
--   the handlers of a connection, and `step`, one turn of the event loop; Stats is `ComputeStats`; Echo is the
--   echo service; TempConfig is `WriteTempConfig`, with YAML's block style in Blocks; Phase is `RunPhase` with
--   the processes that it starts and stops; Program is `SpawnEchoServices` and `main`, and Program.Serves has
--   the load balancer on a phase's configuration; Arguments is `ParseArgs`; Baseline is `SaveBaseline` and
--   `CompareBaseline`, whose positions in a text are what stands in the text from there on; Main is the end of
--   `main`.
--   Tests: concrete runs.
--
-- What is asked of code outside the repository:
--   Boost.Asio: an event is a handler that runs with some error code, and the models say nothing about the
--   order in which handlers that wait run. Its parser `make_address` is a parameter, a test of the text.
--   `std::uniform_int_distribution` is the record `P2c.Distribution`: a number of the range, by some calls
--   of the generator. `std::random_device` is an argument, the seed.
--   yaml-cpp is the record `Yaml`: how nodes are read and written, with the laws that what was written is
--   read. The file is what `Save` leaves and `Load` finds; making its directory and opening it may fail.
--   A text in block style, as `WriteTempConfig` writes it, is read as the tree that `Blocks.document_node`
--   gives for it: a hypothesis at that text.
--   The system: the number of a child, which attempts to connect succeed and which port an acceptor gets are
--   arguments; `waitpid` returns when the child has ended.
--   toml++ is the record `Toml`: how a file is parsed and a table is read. That it reads lines, as `SaveToFile`
--   writes them, as what they mean is a hypothesis at that text, `Settings.Lines.Reads`; a setting with a quote
--   or a backslash, which is written as it is, does not meet it. `wxString::ToULong` is an argument.
--   wxWidgets sends events, and the models say nothing about their order.
--   `double` is the record `Stats.Clock`: the order of the measured times, with a mean and a rate; how one is
--   written, and whether a drop is more than a threshold, are arguments.
--
-- Fuel: `Load.launch` is given the connections that are left to launch, and each round launches one.
-- `Phase.wait_from` has the program's own bound of 100 attempts. `Bound.lower_bound` is given the length of
-- the ring, and each round halves what is left of it. `P2c.redraw` tests the loop's condition at most the
-- given number of times and says `none` where the number is not enough: the program draws until two numbers
-- differ, which no number of rounds bounds.
--
-- Not modelled: the layout of the window and the texts of its status bar; tests/; and the console output.
-- The bytes that pass a session and the numbers that the program does not keep (a direction's `received` and
-- `written`, a counter's `added` and `taken`) are kept to state the theorems; of a write that fails, what it
-- passed on before it failed is not kept.
pub mod Bench
pub mod Health
pub mod Model
pub mod Prelude
pub mod Proxy
pub mod Routing
pub mod Serialization
pub mod State
pub mod System
pub mod Tests
pub mod Ui

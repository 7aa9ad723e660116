-- ===== src/Bench/Program/Serves.antt =====
-- `SpawnEchoServices` and `WriteTempConfig` of bench/main.cpp with core/main.cpp: the load balancer of a
-- phase of the benchmark.
use bit_bridge.Prelude.{
  same_text, ◌≢◌, false, ◌≤◌, Option, pos, ℕ, ◌+◌, ◌<◌, ◌^◌, ◌≡◌, Bool, true, List, [], ◌∷◌, Bytes,
  codes, length, some, returns, throws, hash_collision, value, ◌⊎◌, inl, inr, arith,
}
use bit_bridge.Model.Balancer.{LoadBalancerConfig}
use bit_bridge.State.Service
use bit_bridge.State.Service.{size_mod}
use bit_bridge.State.Pool.{make_pool}
use bit_bridge.Routing.P2c.{Distribution}
use bit_bridge.Proxy.TcpProxy.Addresses.{Addressed}
use bit_bridge.Serialization.Yaml.{Yaml}
use bit_bridge.Serialization.Load.{loaded, load}
use bit_bridge.System.{System}
use bit_bridge.System.Startup.{AnyState, start_up}
use bit_bridge.System.Starting.{make_strategy-cases}
use bit_bridge.System.Program.{KeepsRunning, with_hash, program_serves}
use bit_bridge.Bench.Phase.{lb_port}
use bit_bridge.Bench.Program.{service_base_port, spawn_echo_services}
use bit_bridge.Bench.Program.Ports.{IsHonest, spawn_echo_services_lem}
use bit_bridge.Bench.TempConfig.{print_lines, config_lines}
use bit_bridge.Bench.TempConfig.Blocks.{block_lines, document_node}
use bit_bridge.Bench.TempConfig.Loads.{
  services_from, temp_config, config_block, length-services_from, load-write,
}

named_apart :
    (algo : Bytes)
    → (algo ≡ codes "p2c") ⊎ (algo ≡ codes "consistent-hash")
    → same_text algo (codes "p2c") ≡ false
    → same_text algo (codes "consistent-hash") ≢ false
named_apart algo (inl p2c) other neither = absurd (let h = (rw p2c at other) in cc)
named_apart algo (inr hash) other neither = absurd (let h = (rw hash at neither) in cc)

services_from-Addressed :
    (make_address : Bytes → Bool)
    → make_address (codes "127.0.0.1") ≡ true
    → (i : ℕ) (ports : List ℕ) → Addressed make_address (make_pool (services_from i ports))
unfolding make_pool Service.new
services_from-Addressed make_address local i [] = tt
services_from-Addressed make_address local i (port ∷ ports) =
    (local, services_from-Addressed make_address local (i + 1) ports)

module _ (yaml : Yaml) (make_address : Bytes → Bool) (can_listen : Bytes → ℕ → Bool)
    (dist : Distribution) (fuel device : ℕ) where
  open yaml use {Document, parse}

  -- The load balancer of a phase. The echo services are there, `count` of them, at least one and so few that no
  -- port wraps around, each at the port that it asks for; and the library reads block style as what it
  -- means. From the file that is written for one of the two algorithms, the load balancer reads a
  -- configuration with the services of the benchmark, in order, its health check off. Where 127.0.0.1 is an
  -- address and the port can be listened on, it then reaches its event loop and keeps running over any
  -- turns, fewer than 2 ^ 64 and with clients whose addresses can be had; or the algorithm is consistent
  -- hashing and its constructor throws for a collision.
  pub bench_serves :
      (bound : ℕ → Option ℕ) (count : ℕ) (ports : List ℕ) (file : Bytes → Document) (algo : Bytes)
      (old : LoadBalancerConfig)
      → IsHonest bound
      → 0 < count
      → service_base_port + count ≤ 2 ^ 16
      → spawn_echo_services bound (pos count) ≡ returns ports
      → (algo ≡ codes "p2c") ⊎ (algo ≡ codes "consistent-hash")
      → parse (file (print_lines (block_lines (config_block (temp_config algo lb_port ports)))))
        ≡ some (document_node yaml (config_block (temp_config algo lb_port ports)))
      → make_address (codes "127.0.0.1") ≡ true
      → can_listen (codes "127.0.0.1") lb_port ≡ true
      → (load yaml (some (file (print_lines (config_lines algo lb_port ports)))) old
          ≡ loaded (temp_config algo lb_port ports))
        × (((s : System AnyState) × (start_up can_listen 2
                  (value (temp_config algo lb_port ports))
                  device
                ≡ returns (value s))
              × KeepsRunning make_address dist fuel s)
            ⊎ ((algo ≡ codes "consistent-hash")
                × ((i : ℕ) × (start_up can_listen 2 (value (temp_config algo lb_port ports)) device
                      ≡ throws (hash_collision i)))))
  bench_serves bound count ports file algo old honest some_port few spawned named parsed local
        listens =
      let config = temp_config algo lb_port ports in
      let (all_fit, size, _) =
        spawn_echo_services_lem bound count 0 ports honest few spawned some_port in
      let some_service : 0 < length config.services =
        omega (arith, length-services_from 0 ports, size) in
      (
        load-write yaml file algo lb_port ports old (omega arith) all_fit parsed,
        elim (make_strategy-cases algo (make_pool config.services) device) [
          | inl (st, made) ↦ inl (
              program_serves can_listen 2 device config make_address dist fuel st (omega arith)
                some_service made listens (services_from-Addressed make_address local 0 ports))
          | inr (inr (other, neither, _)) ↦ absurd (named_apart algo named other neither)
          | inr (inl (hash, (i, collides))) ↦ inr (
            hash,
            (i, with_hash can_listen 2 device config i (omega arith) some_service hash collides),
          )
        ],
      )

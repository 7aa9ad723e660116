-- ===== src/Bench/TempConfig.antt =====
-- `WriteTempConfig` of bench/main.cpp. What is printed is kept as its lines.
pub mod Blocks
pub mod Loads
use bit_bridge.Prelude.{
  ℕ, ◌+◌, Bool, if◌then◌else◌, List, [], ◌∷◌, ◌++◌, Bytes, codes, format_nat, Option, none, some,
}

-- `std::println` of each line.
abbrev pub print_lines : List Bytes → Bytes
print_lines [] = []
print_lines (line ∷ lines) = line ++ 10 ∷ print_lines lines

-- The loop over the ports, from an index on, in front of what is printed later.
unfoldable pub service_lines : ℕ → List ℕ → List Bytes → List Bytes
service_lines i [] rest = rest
service_lines i (port ∷ ports) rest =
    (codes "  - name: service-" ++ format_nat (i + 1))
    ∷ codes "    ip: \"127.0.0.1\""
    ∷ (codes "    port: " ++ format_nat port)
    ∷ codes "    weight: 1"
    ∷ service_lines (i + 1) ports rest

unfoldable pub config_lines : Bytes → ℕ → List ℕ → List Bytes
unfolding service_lines
config_lines algo lb_port service_ports =
    (codes "name: bench-" ++ algo)
    ∷ codes "listenAddress: \"127.0.0.1\""
    ∷ (codes "listenPort: " ++ format_nat lb_port)
    ∷ (codes "routingAlgorithm: \"" ++ (algo ++ codes "\""))
    ∷ codes "services:"
    ∷ service_lines 0 service_ports (
        codes "healthCheck:"
        ∷ codes "  enabled: false"
        ∷ codes "connection:"
        ∷ codes "  maxPerService: 2048"
        ∷ codes "  idleTimeoutMs: 5000"
        ∷ codes "  connectTimeoutMs: 2000"
        ∷ [])

-- The path, and what stands in the file behind it; `none` where `Die` ends the program.
unfoldable pub write_temp_config : Bool → Bytes → ℕ → List ℕ → Option (Bytes × Bytes)
unfolding config_lines
write_temp_config opens algo lb_port service_ports =
    if opens
    then some (
      codes "/tmp/bb-cppbench-" ++ (algo ++ codes ".yaml"),
      print_lines (config_lines algo lb_port service_ports),
    )
    else none

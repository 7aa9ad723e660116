-- ===== src/Bench.antt =====
-- bench/main.cpp: the benchmark driver.
pub mod Load
pub mod Echo
pub mod Stats
pub mod TempConfig
pub mod Arguments
pub mod Baseline
pub mod Main
pub mod Phase
pub mod Program

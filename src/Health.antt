-- ===== src/Health.antt =====
-- core/health: the active health checks.
pub mod Checker
pub mod Threshold
pub mod Rounds
pub mod Waits
pub mod Probes
pub mod Runs

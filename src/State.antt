-- ===== src/State.antt =====
-- core/state: the counters of one backend, and the pool of all backends.
pub mod Service
pub mod Atomic
pub mod Pool

-- ===== src/Routing.antt =====
-- core/routing: the choice of a backend for a connection.
pub mod Strategy
pub mod Fnv
pub mod Ring
pub mod Xoshiro
pub mod P2c
pub mod Strategies
pub mod Either

-- ===== src/Routing/Ring.antt =====
-- core/routing/ConsistentHashStrategy.{hpp,cpp} and HashCollisionError.hpp: the consistent hash
-- ring. The constructor stands here, `SelectService` in Ring/Select.antt.
pub mod Sort
pub mod Points
pub mod Keys
pub mod Build
pub mod Members
pub mod Bound
pub mod Select
pub mod Walk
pub mod Choice

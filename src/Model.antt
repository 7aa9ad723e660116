-- ===== src/Model.antt =====
-- lib/model: the data of the configuration, one module for each class.
pub mod Node
pub mod HealthCheck
pub mod Connection
pub mod Balancer

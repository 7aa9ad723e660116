-- ===== src/Serialization.antt =====
-- lib/serialization: the configuration in a YAML file.
pub mod Yaml
pub mod Load
pub mod Fields
pub mod RoundTrip
pub mod Serializer

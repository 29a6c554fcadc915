-- ===== src/Resolver.antt =====
-- The resolver (src/resolver): how a scalar's text becomes a typed value.
pub mod Kind
pub mod Atoms
pub mod Decimal
pub mod Yaml12
pub mod Yaml11
pub mod Schema
pub mod Timestamp
mod Tests

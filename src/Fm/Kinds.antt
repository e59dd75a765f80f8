-- ===== src/Fm/Kinds.antt =====
-- The six typed registries under src/FM/pkg/registry.
pub mod Addr
pub mod Vnet
pub mod Nic
pub mod Mapping
pub mod Route
pub mod Acl
pub mod Meter
mod Tests

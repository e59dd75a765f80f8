-- ===== src/Fm.antt =====
-- The Fleet Manager.
pub mod Registry
pub mod SortDedup
pub mod Ids
pub mod Typed
pub mod Kinds
pub mod Aliasing
pub mod Resilience
pub mod Cm
pub mod Dal
pub mod Gm
pub mod Errors
pub mod Config
pub mod Health
pub mod Service
pub mod Api
pub mod Lint

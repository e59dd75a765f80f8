-- ===== src/Fm/Dal.antt =====
-- The DPU abstraction: src/FM/pkg/dal.
pub mod Plugins
pub mod Dispatcher
pub mod Pool
pub mod Manager
pub mod Factory

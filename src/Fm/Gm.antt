-- ===== src/Fm/Gm.antt =====
-- Goal states: src/FM/pkg/gm, and the service that src/FM/pkg/config wires from it.
pub mod Types
pub mod Generate
pub mod Cache
pub mod Manager

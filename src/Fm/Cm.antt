-- ===== src/Fm/Cm.antt =====
-- Configuration management: src/FM/pkg/cm.
pub mod Subscriber
pub mod Cache
pub mod Event
pub mod Pipeline

-- ===== src/Fm/Resilience.antt =====
-- src/FM/pkg/resilience.
pub mod Breaker
pub mod Retry
pub mod Classify
mod Tests

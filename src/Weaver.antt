-- ===== src/Weaver.antt =====
-- The Weaver gateway.
pub mod Balancer
pub mod Breaker
pub mod Timeout
pub mod Retry
pub mod Health
pub mod Plugins
pub mod Gateway
pub mod Auth
pub mod Discovery
pub mod Ratelimit
pub mod Tracing
pub mod Checkers

-- ===== src/Breaker.antt =====
-- The package breaker/.
pub mod State
pub mod Execute
pub mod Concurrent
mod Tests

-- ===== src/Limiter.antt =====
-- The package limiter/.
pub mod Options
pub mod State
pub mod Permits
pub mod Samples
pub mod Execute
mod Tests

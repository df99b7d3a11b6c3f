-- ===== src/Examples.antt =====
-- The programs under examples/.
pub mod Http
mod Tests

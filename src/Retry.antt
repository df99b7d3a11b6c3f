-- ===== src/Retry.antt =====
-- The package retry/.
pub mod Budget
pub mod Policy
pub mod Execute
mod Tests

-- ===== src/Http.antt =====
-- The package rhttp/.
pub mod Classifier
pub mod Middleware
pub mod Client
pub mod Hedge
mod Tests
mod Examples

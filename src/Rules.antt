-- ===== src/Rules.antt =====
-- The deterministic rules (src/rules).
pub mod Text
pub mod Catalogs
pub mod Core
pub mod Readiness
pub mod Phase
pub mod Firing
pub mod Engine
pub mod Counts

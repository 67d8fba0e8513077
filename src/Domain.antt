-- ===== src/Domain.antt =====
-- src/domain: the alert record, severities, the run window and the volume metrics.
pub mod Record
pub mod Time
pub mod Window
pub mod Identity
pub mod Metrics

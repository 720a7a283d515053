-- ===== src/Scheduling.antt =====
-- Scheduled tasks: src/modules/scheduling/.
pub mod Tasks
pub mod Lifecycle
pub mod Update

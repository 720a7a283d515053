-- ===== src/HostSweep.antt =====
-- The host's periodic sweep of the sessions: src/host-sweep.ts.
pub mod Decision
pub mod Retry
pub mod Sweep
pub mod Patience
pub mod Liveness
pub mod RetryRows

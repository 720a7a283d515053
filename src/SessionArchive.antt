-- ===== src/SessionArchive.antt =====
-- The archive of idle sessions: src/session-archive.ts.
pub mod Jobs
pub mod Retention
pub mod Steps

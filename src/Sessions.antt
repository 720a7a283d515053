-- ===== src/Sessions.antt =====
-- Sessions: src/db/sessions.ts and the session resolution of src/session-manager.ts.
pub mod Table
pub mod Approvals
pub mod Resolve
pub mod Lanes
pub mod Isolation
pub mod Repeat

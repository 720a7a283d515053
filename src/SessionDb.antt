-- ===== src/SessionDb.antt =====
-- The database of a session: src/db/session-db.ts.
pub mod Inbound
pub mod Sequence
pub mod Acks

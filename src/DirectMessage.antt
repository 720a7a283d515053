-- ===== src/DirectMessage.antt =====
-- Whom the host can reach by a direct message: src/modules/permissions/user-dm.ts and db/user-dms.ts.
pub mod Resolve
pub mod Cache
pub mod Repeat

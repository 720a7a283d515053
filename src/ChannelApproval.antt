-- ===== src/ChannelApproval.antt =====
-- The registration of unknown channels: src/modules/permissions/channel-approval.ts, and its handlers in
-- src/modules/permissions/index.ts.
pub mod Rows
pub mod Request
pub mod Response
pub mod Authority

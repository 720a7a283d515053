-- ===== src/Wiring.antt =====
-- Chats, agent groups and how they are wired: src/db/messaging-groups.ts, src/db/agent-groups.ts.
pub mod FreeName
pub mod Pigeonhole
pub mod Chats
pub mod Wire
pub mod Reach

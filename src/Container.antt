-- ===== src/Container.antt =====
-- The container's side of a session's databases: container/agent-runner/src/db/.
pub mod Inbox
pub mod Outbox
pub mod Claims
pub mod Numbers
pub mod Naming

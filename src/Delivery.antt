-- ===== src/Delivery.antt =====
-- Delivery of outbound messages: src/delivery.ts.
pub mod Completion
pub mod Classification
pub mod Questions
pub mod Send
pub mod Drain
pub mod Retries
pub mod Polls
pub mod OnlyOnce
pub mod Permission
pub mod Turns
pub mod Linking
pub mod ClarifyCard

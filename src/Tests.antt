-- ===== src/Tests.antt =====
-- The theorems at concrete inputs.
mod Data
mod Access
mod Approvals
mod Sessions
mod Agents
mod Sweep
mod Delivery
mod Lifecycle
mod Registration
mod Container
mod DirectMessage

-- ===== src/Permissions.antt =====
-- The permissions module (src/modules/permissions/) and the host-side command gate.
pub mod Roles
pub mod Members
pub mod Access
pub mod Privilege
pub mod Revocation
pub mod CommandGate
pub mod AdminCommands
pub mod Approvers
pub mod Gates
pub mod SenderApproval
pub mod Picking
pub mod Approval

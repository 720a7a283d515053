-- ===== src/MountSecurity.antt =====
-- Which host directories a container may mount: src/modules/mount-security/index.ts.
pub mod Allowlist
pub mod Validate
pub mod Defaults
pub mod Safety

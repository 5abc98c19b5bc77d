-- ===== src/Access.antt =====
-- hub/rbac.go: who may call what of the hub's API.
pub mod Roles
pub mod Permission
pub mod Audit
pub mod Gate
pub mod Setup
pub mod Credentials
pub mod Rotating
pub mod OneAdmin
pub mod Passing
pub mod Granting
mod Tests

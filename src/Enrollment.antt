-- ===== src/Enrollment.antt =====
-- hub/agentws.go, agent/credential_handoff.go: install tokens and the credentials of the agents.
pub mod Tokens
pub mod Credentials
pub mod Secrets
pub mod SingleUse
pub mod Presenting
pub mod Recovering
pub mod Handoff
pub mod Confirming
mod Tests

-- ===== src/Rollout.antt =====
-- hub/agent_rollout.go: the staged agent rollout, its tables, operations and proofs.
pub mod Tables
pub mod Reserve
pub mod Progress
pub mod Invariant
pub mod Updates
pub mod Failing
pub mod Ticking
pub mod Reserving
pub mod Reach
pub mod Safety
pub mod Forward
pub mod Evidence
pub mod Dwell
pub mod Completing
pub mod Deliveries
pub mod Promotion
pub mod Sending
pub mod Report
pub mod Operating
pub mod Counting
mod Tests

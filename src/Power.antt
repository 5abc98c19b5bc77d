-- ===== src/Power.antt =====
-- hub/power_history.go, agent/power_journal.go: the power history of an agent, sent and committed.
pub mod Ingest
pub mod Gaps
pub mod Sorted
pub mod Walk
pub mod Rounds
pub mod Prefix
pub mod Commit
pub mod Acks
pub mod Replay
pub mod Retention
pub mod Later
mod Tests
pub mod Journal
pub mod Pending
pub mod Uplink
pub mod Delivery

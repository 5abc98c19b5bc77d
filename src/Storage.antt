-- ===== src/Storage.antt =====
-- agent/power_journal.go: the journal's files: identity, state and segments, their bounds, and what
-- is read back after a crash.
pub mod Disk
pub mod Enforce
pub mod Recover
pub mod Append
pub mod Log
pub mod Good
pub mod Rotating
pub mod Reading
pub mod Bounds
pub mod Durable
pub mod Recovered
pub mod Assigning
pub mod Reopened
pub mod Fresh
mod Tests

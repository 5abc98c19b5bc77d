-- ===== src/Frame.antt =====
-- hub/power_history.go, proto/powerhistory/types.go: the frame that an agent uploads, from its checks to
-- the acknowledgement.
pub mod Wire
pub mod Check
pub mod Accept
pub mod Passing
pub mod Ordered
pub mod Once
pub mod Answering
pub mod Again
pub mod Statistics
mod Tests

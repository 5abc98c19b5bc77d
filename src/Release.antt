-- ===== src/Release.antt =====
-- agent/release_floor.go and hub/release_policy.go: the release floor and the hub's view of it.
pub mod Floor
pub mod File
pub mod RoundTrip
pub mod Store
pub mod Boot
pub mod Ahead
pub mod BootLaws
pub mod Staged
pub mod Enabling
pub mod Marker
pub mod Scanning
pub mod Extracting
pub mod Numbering
pub mod Policy
pub mod Valid
pub mod Agreement
mod Tests
mod ScanTests

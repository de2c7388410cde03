-- ===== src/Poll.antt =====
-- main.go: the acquisition of a device's points.
pub mod Reporting
pub mod Points
pub mod Convert
pub mod Retry
pub mod Attempts
pub mod Round
pub mod Setup
pub mod Decoding
pub mod Report
pub mod Running
pub mod Main
pub mod Stored
pub mod Readings
pub mod Owned
pub mod Plant

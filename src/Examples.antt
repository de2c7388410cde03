-- ===== src/Examples.antt =====
-- Tests, and the theorems at concrete inputs.
pub mod Device
mod Batches
mod Connections
pub mod Values
pub mod Engine
mod Uplink
pub mod Polling
pub mod Starting
mod Building
mod Field
pub mod Channels
pub mod Program
mod Gateway
mod Registers

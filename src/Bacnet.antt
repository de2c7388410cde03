-- ===== src/Bacnet.antt =====
-- protocols/bacnet: the BACnet client, which answers from its own points, and the discovery of devices.
pub mod Points
pub mod Client
pub mod Write
pub mod Index
pub mod Accepts
pub mod ReadBack
pub mod Calls
pub mod Iam
pub mod Registry
pub mod Objects
pub mod Sockets
pub mod Once
pub mod Polling
pub mod Template
pub mod Recovers

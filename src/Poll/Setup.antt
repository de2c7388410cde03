-- ===== src/Poll/Setup.antt =====
-- The start of a device's acquisition in main.go: its configuration out of three sources, and its
-- client out of the pool.
pub mod Config
pub mod Precedence
pub mod Clients
pub mod Pool
pub mod Start
pub mod SharedConfig
pub mod Devices

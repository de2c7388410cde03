-- ===== src/Modbus.antt =====
-- protocols/modbus/modbus_tcp.go
pub mod Address
pub mod Bits
pub mod Library
pub mod Session
pub mod Points
pub mod Batch
pub mod Write

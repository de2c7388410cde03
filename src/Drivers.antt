-- ===== src/Drivers.antt =====
-- The small drivers under protocols/: tcpclient, slmp, s7, snmp and httpclient.
pub mod Net
pub mod Batch
pub mod Tcp
pub mod Slmp
pub mod S7
pub mod Snmp
pub mod Http
pub mod Rows
pub mod Acquire

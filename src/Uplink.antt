-- ===== src/Uplink.antt =====
-- The upstream channels: uplink/, schema/data_report.go and config/uplink_loader.go.
pub mod Http
pub mod Manager
pub mod Everyone
pub mod Mapping
pub mod Renaming
pub mod Sparkplug

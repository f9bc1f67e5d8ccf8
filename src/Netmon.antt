-- ===== src/Netmon.antt =====
-- apps/api/src/modules/netmon: the monitoring of network devices.
pub mod Checks
pub mod Recording
pub mod Alerts
pub mod Samples
pub mod Addresses
pub mod Ranges
pub mod Blocks
pub mod Hosts

-- ===== src/Defs.antt =====
-- `src/defs/`: the counters, the upload body, the telemetry settings, and the measurements at a
-- server: its probe, its pings and the transfers.
pub mod Counter
pub mod Ip
pub mod Server
pub mod Telemetry
pub mod Transfer
pub mod Upload

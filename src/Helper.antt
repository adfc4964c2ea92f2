-- ===== src/Helper.antt =====
-- `src/helper.rs`: the tests of the servers and their reports, and the telemetry that a run sends.
pub mod Multipart
pub mod Telemetry
pub mod Run

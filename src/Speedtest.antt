-- ===== src/Speedtest.antt =====
-- `src/speedtest.rs`: the options of a run, the server list, the telemetry settings, the choice of a
-- server, and the run itself.
pub mod Files
pub mod Load
pub mod Scheme
pub mod Servers
pub mod Telemetry
pub mod Fastest
pub mod Run

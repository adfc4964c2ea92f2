-- ===== src/Util.antt =====
-- `src/util.rs`: path cleaning and joining, averages, deviation and durations.
pub mod Path
pub mod Numbers

-- ===== src/Tests.antt =====
-- Concrete runs of the model: a small web for the HTTP client, and the theorems at inputs of the
-- kind that src/ handles.
pub mod Web
mod Client
mod Bodies
mod Transfer
mod Texts
mod Reports
mod Settings
mod Network
mod Probes
mod Usage
mod Figures
mod Streams
mod Measurements
mod Runs
mod Sessions

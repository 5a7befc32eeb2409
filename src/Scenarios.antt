-- ===== src/Scenarios.antt =====
-- internal/scenarios: scenario files, their validation, and the topology on its way through the
-- database.
pub mod Schema
pub mod Validate
pub mod Topology
mod Examples

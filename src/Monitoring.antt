-- ===== src/Monitoring.antt =====
-- crates/ng-monitoring: what the server keeps of the agents' reports.
pub mod Uuid
pub mod Traffic
mod Tests

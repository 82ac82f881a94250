-- ===== src/Tests.antt =====
-- Runs of the models at concrete data, and the theorems applied to it.
pub mod PortalTests
mod PipelineTests
mod PlanningTests
mod FleetTests
mod ConfigTests
mod TopologyTests
mod WebTests

-- ===== src/Orchestrator.antt =====
-- services/orchestrator_adk/src/cloudcause_orchestrator: one investigation from the costs to the report.
pub mod Planner
pub mod Load
pub mod Sources
pub mod Responses
pub mod Run
pub mod Publish
pub mod Available
pub mod Accounted
pub mod Statuses
pub mod Workers
pub mod Completes
pub mod Tests

-- ===== src/Orchestration.antt =====
-- offboarding/orchestration: the steps of the workflow, and the service that drives runs.
pub mod State
pub mod Tracing
pub mod Nodes
pub mod Graph
pub mod Drive
pub mod Services
pub mod RunService

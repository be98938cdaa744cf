-- ===== src/Tests.antt =====
-- Runs of the definitions on small inputs, and the theorems at them.
pub mod Retry
pub mod Data
pub mod Ledger
pub mod Executor
pub mod Records
pub mod Orchestration
pub mod Llm
pub mod Graph
pub mod Clients

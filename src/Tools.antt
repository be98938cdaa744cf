-- ===== src/Tools.antt =====
-- offboarding/tools: the registry, the tools, the idempotency ledger and the executor.
pub mod Base
pub mod Providers
pub mod Arguments
pub mod Isolation
pub mod Footing
pub mod Iam
pub mod Documents
pub mod HrDirectory
pub mod Contracts
pub mod Ledger
pub mod Retrying
pub mod Executor

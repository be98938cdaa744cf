-- ===== src/Persistence.antt =====
-- offboarding/persistence: the three repositories.
pub mod Runs
pub mod SideEffects
pub mod Trace
pub mod History

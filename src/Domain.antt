-- ===== src/Domain.antt =====
-- offboarding/domain: the vocabulary of the program, its errors and its records.
pub mod RunStatus
pub mod StepStatus
pub mod StepName
pub mod PauseReason
pub mod FailureReason
pub mod Json
pub mod JsonText
pub mod Errors
pub mod Result
pub mod Run
pub mod Models
pub mod Redaction
pub mod Lifecycle

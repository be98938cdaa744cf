-- ===== src/Domain/StepStatus.antt =====
-- offboarding/domain/run.py, `StepStatus`: the lifecycle of one attempt at a step.
-- `value` is a member's text, `same` the identity of members.
use offboarding_orchestrator.Prelude.{ℕ, String, Bool, true, ◌≡◌, ◌↔◌, arith, ◌==◌}

pub data StepStatus : Type 0 where
  pending running paused completed failed skipped : StepStatus

unfoldable pub value : StepStatus → String
value pending = "pending"
value running = "running"
value paused = "paused"
value completed = "completed"
value failed = "failed"
value skipped = "skipped"

abbrev number : StepStatus → ℕ
number pending = 0
number running = 1
number paused = 2
number completed = 3
number failed = 4
number skipped = 5

abbrev pub same : StepStatus → StepStatus → Bool
same a b = number a == number b

pub same_iff : (a b : StepStatus) → (same a b ≡ true) ↔ (a ≡ b)
same_iff a b = ground arith

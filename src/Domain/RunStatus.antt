-- ===== src/Domain/RunStatus.antt =====
-- offboarding/domain/run.py, `RunStatus`: the lifecycle of a run.
-- `value` is a member's text, `same` the identity of members.
use offboarding_orchestrator.Prelude.{ℕ, String, Bool, true, ◌≡◌, ◌↔◌, arith, ◌==◌}

pub data RunStatus : Type 0 where
  pending running paused completed failed cancelled : RunStatus

unfoldable pub value : RunStatus → String
value pending = "pending"
value running = "running"
value paused = "paused"
value completed = "completed"
value failed = "failed"
value cancelled = "cancelled"

abbrev number : RunStatus → ℕ
number pending = 0
number running = 1
number paused = 2
number completed = 3
number failed = 4
number cancelled = 5

abbrev pub same : RunStatus → RunStatus → Bool
same a b = number a == number b

pub same_iff : (a b : RunStatus) → (same a b ≡ true) ↔ (a ≡ b)
same_iff a b = ground arith

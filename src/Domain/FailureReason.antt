-- ===== src/Domain/FailureReason.antt =====
-- offboarding/domain/run.py, `FailureReason`: why a run has failed.
-- `value` is a member's text, `same` the identity of members.
use offboarding_orchestrator.Prelude.{ℕ, String, Bool, true, ◌≡◌, ◌↔◌, arith, ◌==◌}

pub data FailureReason : Type 0 where
  tool_failed approval_rejected budget_exceeded : FailureReason
  tool_not_allowed invalid_plan needs_reconciliation : FailureReason

unfoldable pub value : FailureReason → String
value tool_failed = "tool_failed"
value approval_rejected = "approval_rejected"
value budget_exceeded = "budget_exceeded"
value tool_not_allowed = "tool_not_allowed"
value invalid_plan = "invalid_plan"
value needs_reconciliation = "needs_reconciliation"

abbrev number : FailureReason → ℕ
number tool_failed = 0
number approval_rejected = 1
number budget_exceeded = 2
number tool_not_allowed = 3
number invalid_plan = 4
number needs_reconciliation = 5

abbrev pub same : FailureReason → FailureReason → Bool
same a b = number a == number b

pub same_iff : (a b : FailureReason) → (same a b ≡ true) ↔ (a ≡ b)
same_iff a b = ground arith

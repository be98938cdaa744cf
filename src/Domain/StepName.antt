-- ===== src/Domain/StepName.antt =====
-- offboarding/domain/run.py, `StepName`: the seven steps.
-- `value` is a member's text, `same` the identity of members.
use offboarding_orchestrator.Prelude.{ℕ, String, Bool, true, ◌≡◌, ◌↔◌, arith, ◌==◌}

pub data StepName : Type 0 where
  fetch_employee plan_deprovisioning await_hr_approval : StepName
  revoke_access send_exit_paperwork await_signed_document finalize : StepName

unfoldable pub value : StepName → String
value fetch_employee = "fetch_employee"
value plan_deprovisioning = "plan_deprovisioning"
value await_hr_approval = "await_hr_approval"
value revoke_access = "revoke_access"
value send_exit_paperwork = "send_exit_paperwork"
value await_signed_document = "await_signed_document"
value finalize = "finalize"

abbrev number : StepName → ℕ
number fetch_employee = 0
number plan_deprovisioning = 1
number await_hr_approval = 2
number revoke_access = 3
number send_exit_paperwork = 4
number await_signed_document = 5
number finalize = 6

abbrev pub same : StepName → StepName → Bool
same a b = number a == number b

pub same_iff : (a b : StepName) → (same a b ≡ true) ↔ (a ≡ b)
same_iff a b = ground arith

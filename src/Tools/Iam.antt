-- ===== src/Tools/Iam.antt =====
-- offboarding/tools/iam.py. `_remaining_failures` is `iam_failures` of the world; the two flags are
-- set when the tool is built.
use Prim.Native.String.{◌++◌ as str_append}
use offboarding_orchestrator.Prelude.{String, Bool, true, ◌-◌, some, [], ◌∷◌, ltb, if◌then◌else◌}
use offboarding_orchestrator.Domain.Json.{Value, str, list, Fields, end, field}
use offboarding_orchestrator.Domain.Errors.{
  plain, permanent_tool_error, transient_tool_error, base_exception,
}
use offboarding_orchestrator.World.{Call, pure, raise, gets, ◌>>=◌, ◌>>◌}
use offboarding_orchestrator.Tools.Base.{ToolSpec, Tool}
use offboarding_orchestrator.Tools.Arguments.{check_names, argument, to_list, last_12, text_of}
use offboarding_orchestrator.Tools.Providers
use offboarding_orchestrator.Tools.Providers.{unless_applied}

abbrev pub iam_spec : ToolSpec
iam_spec = record {
  name = "iam.revoke_access";
  description = "Revoke an employee's access across the listed systems.";
  side_effecting = true;
  requires_approval = true;
}

-- self._remaining_failures -= 1; raise TransientToolError
unfoldable pub fail_once : Call Fields
fail_once w =
    raise transient_tool_error (plain "iam gateway returned 503 (service unavailable)")
      (record w { iam_failures = w.iam_failures - 1 })

unfoldable pub apply_revocation : Bool → Value → Value → String → Call Fields
apply_revocation crash_after_apply employee_id systems key = do
  revoked ← to_list systems
  let receipt = field "employee_id" employee_id (
      field "revoked_systems" (list revoked)
        (field "revocation_id" (str (str_append "rev_" (last_12 key))) end))
  Providers.record_effect "iam" key receipt
  if crash_after_apply
      then raise base_exception (plain "process died after IAM applied the revocation")
      else pure receipt

unfoldable pub revoke : Bool → Bool → Value → Value → String → Call Fields
unfolding fail_once apply_revocation
revoke fail_permanently crash_after_apply employee_id systems key = do
  remaining ← gets (λ w. w.iam_failures)
  if fail_permanently
      then raise permanent_tool_error (record {
        template = "iam rejected the revocation for {!r}: account is under legal hold";
        values = employee_id ∷ [];
      })
      else if ltb 0 remaining
      then fail_once
      else apply_revocation crash_after_apply employee_id systems key

unfoldable pub call : Bool → Bool → Fields → Call Fields
unfolding revoke
call fail_permanently crash_after_apply kwargs = do
  check_names ("employee_id" ∷ "systems" ∷ "idempotency_key" ∷ []) kwargs
  employee_id ← argument "employee_id" kwargs
  systems ← argument "systems" kwargs
  key ← argument "idempotency_key" kwargs
  existing ← Providers.lookup "iam" (text_of key)
  unless_applied (revoke fail_permanently crash_after_apply employee_id systems (text_of key))
      existing

unfoldable pub iam_tool : Bool → Bool → Tool
iam_tool fail_permanently crash_after_apply = record {
  spec = iam_spec;
  call = call fail_permanently crash_after_apply;
  lookup = some (Providers.lookup "iam");
}

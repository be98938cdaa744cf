-- ===== src/Tools/Documents.antt =====
-- offboarding/tools/documents.py. `_remaining_failures` of the sending tool is `document_failures`
-- of the world.
use Prim.Native.String.{◌++◌ as str_append}
use offboarding_orchestrator.Prelude.{String, true, false, ◌-◌, some, [], ◌∷◌, ltb, if◌then◌else◌}
use offboarding_orchestrator.Domain.Json.{Value, str, num, Fields, end, field}
use offboarding_orchestrator.Domain.Errors.{plain, transient_tool_error}
use offboarding_orchestrator.World.{Call, pure, raise, gets, ◌>>=◌, ◌>>◌}
use offboarding_orchestrator.Tools.Base.{ToolSpec, Tool}
use offboarding_orchestrator.Tools.Arguments.{check_names, argument, len, last_12, text_of}
use offboarding_orchestrator.Tools.Providers
use offboarding_orchestrator.Tools.Providers.{unless_applied}

abbrev pub send_spec : ToolSpec
send_spec = record {
  name = "documents.send_exit_paperwork";
  description = "Send the exit paperwork packet to an employee for signing.";
  side_effecting = true;
  requires_approval = false;
}

unfoldable pub time_out_once : Call Fields
time_out_once w =
    raise transient_tool_error (plain "document service timed out")
      (record w { document_failures = w.document_failures - 1 })

unfoldable pub apply_send : Value → Value → Value → String → Call Fields
apply_send employee_id email checklist key = do
  item_count ← len checklist
  let receipt = field "document_id" (str (str_append "doc_" (last_12 key))) (
      field "employee_id" employee_id (
        field "sent_to" email
          (field "item_count" (num item_count) (field "status" (str "awaiting_signature") end))))
  Providers.record_effect "documents" key receipt
  pure receipt

unfoldable pub send : Value → Value → Value → String → Call Fields
unfolding time_out_once apply_send
send employee_id email checklist key = do
  remaining ← gets (λ w. w.document_failures)
  if ltb 0 remaining then time_out_once else apply_send employee_id email checklist key

unfoldable pub send_call : Fields → Call Fields
unfolding send
send_call kwargs = do
  check_names ("employee_id" ∷ "email" ∷ "checklist" ∷ "idempotency_key" ∷ []) kwargs
  employee_id ← argument "employee_id" kwargs
  email ← argument "email" kwargs
  checklist ← argument "checklist" kwargs
  key ← argument "idempotency_key" kwargs
  existing ← Providers.lookup "documents" (text_of key)
  unless_applied (send employee_id email checklist (text_of key)) existing

unfoldable pub send_exit_paperwork_tool : Tool
send_exit_paperwork_tool = record {
  spec = send_spec;
  call = send_call;
  lookup = some (Providers.lookup "documents");
}

abbrev pub archive_spec : ToolSpec
archive_spec = record {
  name = "documents.archive_record";
  description = "Archive the completed offboarding record.";
  side_effecting = true;
  requires_approval = false;
}

unfoldable pub archive : Value → Value → String → Call Fields
archive employee_id summary key = do
  let receipt =
      field "archive_id" (str (str_append "arc_" (last_12 key)))
        (field "employee_id" employee_id (field "summary" summary end))
  Providers.record_effect "archive" key receipt
  pure receipt

unfoldable pub archive_call : Fields → Call Fields
unfolding archive
archive_call kwargs = do
  check_names ("employee_id" ∷ "summary" ∷ "idempotency_key" ∷ []) kwargs
  employee_id ← argument "employee_id" kwargs
  summary ← argument "summary" kwargs
  key ← argument "idempotency_key" kwargs
  existing ← Providers.lookup "archive" (text_of key)
  unless_applied (archive employee_id summary (text_of key)) existing

unfoldable pub archive_record_tool : Tool
archive_record_tool = record {
  spec = archive_spec;
  call = archive_call;
  lookup = some (Providers.lookup "archive");
}

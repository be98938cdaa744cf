-- ===== src/Clients/Missing.antt =====
-- The clients on the id of a run that does not exist.
use offboarding_orchestrator.Prelude.{ℕ, String, Bool, true, false, ◌≡◌, refl, Option, none, some}
use offboarding_orchestrator.Domain.Errors.{is_instance}
use offboarding_orchestrator.Domain.Result.{Result, ok, err}
use offboarding_orchestrator.World.{World, Call}
use offboarding_orchestrator.Persistence.Runs
use offboarding_orchestrator.Persistence.Runs.{no_run}
use offboarding_orchestrator.Persistence.Runs.Status.{find}
use offboarding_orchestrator.Orchestration.RunService.{
  Graph, approve, reject, resolve_approval, submit_signed_document, resume_run, cancel_run,
  get_trace, get_side_effects,
}
use offboarding_orchestrator.Clients.Api.{Request, Response, Body, answer, handle, route}
use offboarding_orchestrator.Clients.Cli.{Command}

-- The run that a request is about.
abbrev pub request_run : Request → Option String
request_run (Request.start_run body) = none
request_run (Request.list_runs limit) = none
request_run (Request.get_run run_id) = some run_id
request_run (Request.approve run_id body) = some run_id
request_run (Request.reject run_id body) = some run_id
request_run (Request.sign run_id body) = some run_id
request_run (Request.resume run_id) = some run_id
request_run (Request.cancel run_id) = some run_id
request_run (Request.get_trace run_id) = some run_id
request_run (Request.get_side_effects run_id) = some run_id

abbrev pub command_run : Command → Option String
command_run (Command.start employee_id max_steps max_tool_calls) = none
command_run (Command.list_runs limit) = none
command_run (Command.show run_id) = some run_id
command_run (Command.approve run_id approver remark) = some run_id
command_run (Command.reject run_id approver remark) = some run_id
command_run (Command.sign run_id document_id signed_at) = some run_id
command_run (Command.resume run_id) = some run_id
command_run (Command.cancel run_id) = some run_id
command_run (Command.trace run_id) = some run_id
command_run (Command.side_effects run_id) = some run_id

abbrev pub not_found_response : String → Response
not_found_response run_id = record {
  status_code = 404;
  content = Body.detail (no_run run_id).message;
}

module _ (run_id : String) (w : World) (missing : find run_id w ≡ none) where
  get_missing : Runs.get run_id w ≡ (err (no_run run_id), w)
  unfolding Runs.get
  get_missing = rw missing refl

  resolve_missing :
      (service : Graph) (approved : Bool) (approver : String) (remark : Option String)
      → resolve_approval service approved run_id approver remark w ≡ (err (no_run run_id), w)
  unfolding resolve_approval
  resolve_missing service approved approver remark = rw get_missing refl

  submit_missing :
      (service : Graph) (document_id : String) (signed_at : Option String)
      → submit_signed_document service run_id document_id signed_at w ≡ (err (no_run run_id), w)
  unfolding submit_signed_document
  submit_missing service document_id signed_at = rw get_missing refl

  resume_missing : (service : Graph) → resume_run service run_id w ≡ (err (no_run run_id), w)
  unfolding resume_run
  resume_missing service = rw get_missing refl

  cancel_missing : cancel_run run_id w ≡ (err (no_run run_id), w)
  unfolding cancel_run
  cancel_missing = rw get_missing refl

  trace_missing : get_trace run_id w ≡ (err (no_run run_id), w)
  unfolding get_trace
  trace_missing = rw get_missing refl

  effects_missing : get_side_effects run_id w ≡ (err (no_run run_id), w)
  unfolding get_side_effects
  effects_missing = rw get_missing refl

answer_missing :
    {A : Type 0} (status_code : ℕ) (body : A → Body) (call : Call A) (w : World) (run_id : String)
    → call w ≡ (err (no_run run_id), w)
    → answer status_code body call w ≡ (ok (not_found_response run_id), w)
unfolding answer handle is_instance
answer_missing status_code body call w run_id raised = rw raised refl

-- The id that a request is about, in the table's terms.
same_run :
    (j run_id : String) (w : World) → some j ≡ some run_id → find run_id w ≡ none → find j w ≡ none
same_run j run_id w about missing = let e : j ≡ run_id = cc in rw e missing

named :
    (j run_id : String) (w : World) {x : Result Response × World}
    → some j ≡ some run_id
    → x ≡ (ok (not_found_response j), w)
    → x ≡ (ok (not_found_response run_id), w)
named j run_id w about h = let e : j ≡ run_id = cc in rw (← e) h

-- Every HTTP request about a run that is not in the table is answered with 404 and the message of
-- RunNotFound, and changes nothing.
pub route-not_found :
    (service : Graph) (hex : String) (request : Request) (run_id : String) (w : World)
    → request_run request ≡ some run_id
    → find run_id w ≡ none
    → route service hex request w ≡ (ok (not_found_response run_id), w)
unfolding route approve reject
route-not_found service hex (Request.start_run body) run_id w about missing = absurd (cc)
route-not_found service hex (Request.list_runs limit) run_id w about missing = absurd (cc)
route-not_found service hex (Request.get_run j) run_id w about missing =
    named j run_id w about
      (answer_missing _ _ _ w j (get_missing j w (same_run j run_id w about missing)))
route-not_found service hex (Request.approve j body) run_id w about missing =
    named j run_id w about (
      answer_missing _ _ _ w j (
        resolve_missing j w (same_run j run_id w about missing) service true body.approver
          body.remark))
route-not_found service hex (Request.reject j body) run_id w about missing =
    named j run_id w about (
      answer_missing _ _ _ w j (
        resolve_missing j w (same_run j run_id w about missing) service false body.approver
          body.remark))
route-not_found service hex (Request.sign j body) run_id w about missing = named j run_id w about (
    answer_missing _ _ _ w j (
      submit_missing j w (same_run j run_id w about missing) service body.document_id
        body.signed_at))
route-not_found service hex (Request.resume j) run_id w about missing =
    named j run_id w about
      (answer_missing _ _ _ w j (resume_missing j w (same_run j run_id w about missing) service))
route-not_found service hex (Request.cancel j) run_id w about missing =
    named j run_id w about
      (answer_missing _ _ _ w j (cancel_missing j w (same_run j run_id w about missing)))
route-not_found service hex (Request.get_trace j) run_id w about missing =
    named j run_id w about
      (answer_missing _ _ _ w j (trace_missing j w (same_run j run_id w about missing)))
route-not_found service hex (Request.get_side_effects j) run_id w about missing =
    named j run_id w about
      (answer_missing _ _ _ w j (effects_missing j w (same_run j run_id w about missing)))

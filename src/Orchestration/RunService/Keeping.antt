-- ===== src/Orchestration/RunService/Keeping.antt =====
-- The operations of RunService and a relation between databases.
use offboarding_orchestrator.Prelude.{
  ℕ, String, Bool, true, false, Option, none, some, List, [], ◌∷◌,
}
use offboarding_orchestrator.Domain.PauseReason
use offboarding_orchestrator.Domain.PauseReason.{PauseReason}
use offboarding_orchestrator.Domain.FailureReason.{FailureReason}
use offboarding_orchestrator.Domain.Json.{Value, str, Fields}
use offboarding_orchestrator.Domain.Errors.{Exc}
use offboarding_orchestrator.Domain.Result.{Result, ok, err}
use offboarding_orchestrator.Domain.Models.{Run}
use offboarding_orchestrator.World.{Call, pure, with_result}
use offboarding_orchestrator.World.Keeps.{
  Keeps, Keeps-gets, Keeps-bind, Keeps-pure, Keeps-raise, Keeps-reraise, Keeps-if, Keeps-now,
  Keeps-with_result,
}
use offboarding_orchestrator.Orchestration.RunService.{
  Graph, Input, fail, valid_reason, parse_reason, land, reconcile, advance, start_run,
  require_paused_for, resolve_paused, resolve_approval, approve, reject, signing_time, time_text,
  submit_signed_document, resume_run, cancel_run,
}
use offboarding_orchestrator.World.{Db}
use offboarding_orchestrator.World.Keeps.{IsPreorder}
use offboarding_orchestrator.Domain.RunStatus.{RunStatus}
use offboarding_orchestrator.Domain.Errors.{Message}
use offboarding_orchestrator.Persistence.Runs
use offboarding_orchestrator.Persistence.Runs.{create, set_status, request_cancel}
use offboarding_orchestrator.Persistence.Runs.Status.{get-state}

-- A request to the service.
pub data Operation : Type 0 where
  starts : String → ℕ → ℕ → String → Operation
  approves rejects submits : String → String → Option String → Operation
  resumes cancels : String → Operation

abbrev pub perform : Graph → Operation → Call Run
perform graph (Operation.starts employee_id max_steps max_tool_calls hex) =
    start_run graph employee_id max_steps max_tool_calls hex
perform graph (Operation.approves run_id approver remark) = approve graph run_id approver remark
perform graph (Operation.rejects run_id approver remark) = reject graph run_id approver remark
perform graph (Operation.submits run_id document_id signed_at) =
    submit_signed_document graph run_id document_id signed_at
perform graph (Operation.resumes run_id) = resume_run graph run_id
perform graph (Operation.cancels run_id) = cancel_run run_id

-- Requests, one after the other; an exception is the client's to see.
unfoldable pub serve : Graph → List Operation → Call (Unit {0})
serve graph [] = pure tt
serve graph (operation ∷ rest) = with_result (perform graph operation) λ answer. serve graph rest

-- What the writes of the service must keep.
pub record ServiceFooting (R : Db → Db → Type 0) : Type 0 where
  pub order : IsPreorder R
  pub moves :
      (run_id : String) (target : RunStatus) (p : Option PauseReason) (f : Option FailureReason)
      (d : Option Message)
      → Keeps R (set_status run_id target p f d)
  pub flags : (run_id : String) → Keeps R (request_cancel run_id)
  pub creates :
      (employee_id : String) (run_id : Option String) (max_steps max_tool_calls : ℕ) (hex : String)
      → Keeps R (create employee_id run_id max_steps max_tool_calls hex)

module _ {R : Db → Db → Type 0} (foot : ServiceFooting R) where
  preorder : IsPreorder R
  preorder = foot.order

  get_keeps : (run_id : String) → Keeps R (Runs.get run_id)
  get_keeps run_id = record { at = λ w. rw (get-state run_id w) (foot.order.stay w.db) }

  moves_keeps :
      (run_id : String) (target : RunStatus) (p : Option PauseReason) (f : Option FailureReason)
      (d : Option Message)
      → Keeps R (set_status run_id target p f d)
  moves_keeps = foot.moves

  flags_keeps : (run_id : String) → Keeps R (request_cancel run_id)
  flags_keeps = foot.flags

  creates_keeps :
      (employee_id : String) (run_id : Option String) (max_steps max_tool_calls : ℕ) (hex : String)
      → Keeps R (create employee_id run_id max_steps max_tool_calls hex)
  creates_keeps = foot.creates

  ruleset call_rules = (
    Keeps-bind, Keeps-pure, Keeps-raise, Keeps-reraise, Keeps-if, Keeps-now, Keeps-with_result,
    Keeps-gets, preorder, get_keeps, moves_keeps, flags_keeps, creates_keeps,
  )

  fail_keeps : (run : Run) (f : FailureReason) (e : Exc) → Keeps R (fail run f e)
  unfolding fail
  fail_keeps run f e = search call_rules

  valid_reason_keeps : (o : Option PauseReason) → Keeps R (valid_reason o)
  unfolding valid_reason
  valid_reason_keeps none = search call_rules
  valid_reason_keeps (some p) = search call_rules

  parse_reason_keeps : (o : Option Value) → Keeps R (parse_reason o)
  unfolding parse_reason
  parse_reason_keeps none = search call_rules
  parse_reason_keeps (some (str s)) = valid_reason_keeps (PauseReason.parse s)
  parse_reason_keeps (some _) = valid_reason_keeps none

  land_keeps : (run : Run) (interrupts : List Fields) → Keeps R (land run interrupts)
  unfolding land
  land_keeps run (payload ∷ rest) = search (call_rules, parse_reason_keeps) depth 9
  land_keeps run [] = search call_rules

  reconcile_keeps : (run : Run) (r : Result (List Fields)) → Keeps R (reconcile run r)
  unfolding reconcile
  reconcile_keeps run (ok interrupts) = land_keeps run interrupts
  reconcile_keeps run (err e) = search (call_rules, fail_keeps) depth 15

  require_paused_for_keeps :
      (run : Run) (reason : PauseReason) → Keeps R (require_paused_for run reason)
  unfolding require_paused_for
  require_paused_for_keeps run reason = search call_rules

  signing_time_keeps : (o : Option String) → Keeps R (signing_time o)
  unfolding signing_time time_text
  signing_time_keeps none = search call_rules depth 9
  signing_time_keeps (some s) = search call_rules depth 9

  module _ (graph : Graph)
      (invokes : (input : Input) (thread_id : String)
        → Keeps R (graph.invoke input thread_id)) where
    advance_keeps : (run : Run) (input : Input) → Keeps R (advance graph run input)
    unfolding advance
    advance_keeps run input = search (call_rules, invokes, reconcile_keeps)

    start_run_keeps :
        (employee_id : String) (max_steps max_tool_calls : ℕ) (hex : String)
        → Keeps R (start_run graph employee_id max_steps max_tool_calls hex)
    unfolding start_run
    start_run_keeps employee_id max_steps max_tool_calls hex =
        search (call_rules, advance_keeps) depth 12

    resolve_approval_keeps :
        (approved : Bool) (run_id approver : String) (remark : Option String)
        → Keeps R (resolve_approval graph approved run_id approver remark)
    unfolding resolve_approval resolve_paused
    resolve_approval_keeps approved run_id approver remark =
        search (call_rules, advance_keeps, require_paused_for_keeps) depth 15

    submit_keeps :
        (run_id document_id : String) (signed_at : Option String)
        → Keeps R (submit_signed_document graph run_id document_id signed_at)
    unfolding submit_signed_document
    submit_keeps run_id document_id signed_at =
        search (call_rules, advance_keeps, require_paused_for_keeps, signing_time_keeps) depth 15

    resume_run_keeps : (run_id : String) → Keeps R (resume_run graph run_id)
    unfolding resume_run
    resume_run_keeps run_id = search (call_rules, advance_keeps) depth 12

  cancel_run_keeps : (run_id : String) → Keeps R (cancel_run run_id)
  unfolding cancel_run
  cancel_run_keeps run_id = search call_rules depth 12

  module _ (graph : Graph)
      (invokes : (input : Input) (thread_id : String)
        → Keeps R (graph.invoke input thread_id)) where
    pub perform_keeps : (operation : Operation) → Keeps R (perform graph operation)
    unfolding approve reject
    perform_keeps (Operation.starts employee_id max_steps max_tool_calls hex) =
        start_run_keeps graph invokes employee_id max_steps max_tool_calls hex
    perform_keeps (Operation.approves run_id approver remark) =
        resolve_approval_keeps graph invokes true run_id approver remark
    perform_keeps (Operation.rejects run_id approver remark) =
        resolve_approval_keeps graph invokes false run_id approver remark
    perform_keeps (Operation.submits run_id document_id signed_at) =
        submit_keeps graph invokes run_id document_id signed_at
    perform_keeps (Operation.resumes run_id) = resume_run_keeps graph invokes run_id
    perform_keeps (Operation.cancels run_id) = cancel_run_keeps run_id

    pub serve_keeps : (operations : List Operation) → Keeps R (serve graph operations)
    unfolding serve
    serve_keeps [] = Keeps-pure foot.order tt
    serve_keeps (operation ∷ rest) =
        Keeps-with_result foot.order _ _ (perform_keeps operation) λ answer. serve_keeps rest

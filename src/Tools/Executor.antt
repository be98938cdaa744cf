-- ===== src/Tools/Executor.antt =====
-- offboarding/tools/executor.py: the one path to a tool. Of a RetryPolicy only `max_attempts`
-- matters to the state; its other fields are lengths of sleeps.
pub mod Loop
pub mod Retries
pub mod Keeping
pub mod History
pub mod Allowlist
use offboarding_orchestrator.Prelude.{
  ℕ, String, Bool, true, false, ◌&&◌, ◌||◌, not, Option, none, some, List, [], ◌∷◌, is_some, leb,
  if◌then◌else◌,
}
use offboarding_orchestrator.Domain.Json.{bool, num, str, dict, Fields, end, field}
use offboarding_orchestrator.Domain.Errors.{
  Exc, transient_tool_error, permanent_tool_error, reconciliation_required, tool_not_allowed,
  budget_exceeded, value_error, is_instance, class_name,
}
use offboarding_orchestrator.Domain.Result.{Result, ok, err}
use offboarding_orchestrator.Domain.Models.{Run, StepAttempt}
use offboarding_orchestrator.Domain.Redaction.{redact_fields}
use offboarding_orchestrator.World.{Call, pure, reraise, lift, try_except, with_result, ◌>>=◌, ◌>>◌}
use offboarding_orchestrator.Persistence.Runs
use offboarding_orchestrator.Persistence.Trace
use offboarding_orchestrator.Tools.Base.{Tool, ToolRegistry, resolve}
use offboarding_orchestrator.Tools.Ledger.{LedgerOutcome, run_once, build_key}
use offboarding_orchestrator.Tools.Retrying.{Retrying}

pub record ExecutionResult : Type 0 where
  pub result : Fields
  pub attempts : ℕ
  pub replayed : Bool
  pub reconciled : Bool

-- A ToolExecutor: its collaborators, and how deep `run_once` may call itself.
pub record ToolExecutor : Type 0 where
  pub registry : ToolRegistry
  pub max_attempts : ℕ
  pub retrying : Retrying ExecutionResult
  pub depth : ℕ

unfoldable pub trace_refusal : String → String → String → Exc → Call StepAttempt
trace_refusal run_id step_name tool_name e = do
  row ← Trace.start_attempt run_id step_name (some tool_name)
  Trace.fail_attempt row.id (class_name e.class) e.message
      (some (field "retryable" (bool false) (field "guardrail" (bool true) end)))

abbrev pub budget_spent : Run → Exc
budget_spent run = record {
  class = budget_exceeded;
  message = record {
    template = "run {} has used its {} tool calls";
    values = str run.run_id ∷ num run.max_tool_calls ∷ [];
  };
}

unfoldable pub check_budget : String → String → String → Call (Unit {0})
check_budget run_id step_name tool_name = do
  run ← Runs.get run_id
  if leb run.max_tool_calls run.tool_call_count
      then (do
        trace_refusal run_id step_name tool_name (budget_spent run)
        reraise (budget_spent run))
      else pure tt

-- What a tool call gave, through the ledger or not.
abbrev pub plain_outcome : Fields → LedgerOutcome
plain_outcome result = record { result = result; replayed = false; reconciled = false }

-- operation or ""
abbrev pub or_blank : Option String → String
or_blank none = ""
or_blank (some operation) = operation

-- One request to one tool.
pub record Request : Type 0 where
  pub run_id : String
  pub step_name : String
  pub tool_name : String
  pub allowlist : List String
  pub kwargs : Fields
  pub operation : Option String

unfoldable pub invoke : ToolExecutor → Request → Tool → Call LedgerOutcome
invoke x q tool =
    if tool.spec.side_effecting
    then run_once x.depth (build_key q.run_id q.step_name (or_blank q.operation)) q.run_id
        q.step_name tool q.kwargs
    else (do result ← tool.call q.kwargs; pure (plain_outcome result))

-- Closing the trace row, and the result or the exception of the attempt.
unfoldable pub conclude :
    ToolExecutor → ℕ → StepAttempt → Result LedgerOutcome → Call ExecutionResult
conclude x attempt_number row (ok outcome) = do
  Trace.complete_attempt row.id
      (some (
        redact_fields (
          field "attempt" (num attempt_number) (
            field "replayed" (bool outcome.replayed) (
              field "reconciled" (bool outcome.reconciled)
                (field "result" (dict outcome.result) end))))))
      none
  pure (record {
    result = outcome.result;
    attempts = attempt_number;
    replayed = outcome.replayed;
    reconciled = outcome.reconciled;
  })
conclude x attempt_number row (err e) =
    if is_instance e.class transient_tool_error
    then (do
      Trace.fail_attempt row.id (class_name e.class) e.message (
          some (
            field "retryable" (bool true) (
              field "attempt" (num attempt_number)
                (field "max_attempts" (num x.max_attempts) end))))
      reraise e)
    else if is_instance e.class permanent_tool_error || is_instance e.class reconciliation_required
    then (do
      Trace.fail_attempt row.id (class_name e.class) e.message
          (some (field "retryable" (bool false) (field "attempt" (num attempt_number) end)))
      reraise e)
    else reraise e

-- The body of `with attempt:`.
unfoldable pub attempt : ToolExecutor → Request → Tool → ℕ → Call ExecutionResult
attempt x q tool attempt_number = do
  check_budget q.run_id q.step_name q.tool_name
  row ← Trace.start_attempt q.run_id q.step_name (some q.tool_name)
  Runs.bump_counters q.run_id 0 1
  with_result (invoke x q tool) (conclude x attempt_number row)

-- `except ToolNotAllowed`: trace the refusal and raise it again
unfoldable pub refused : Request → Exc → Call Tool
refused q e =
    if is_instance e.class tool_not_allowed
    then (do trace_refusal q.run_id q.step_name q.tool_name e; reraise e)
    else reraise e

abbrev pub needs_operation : String → Exc
needs_operation tool_name = record {
  class = value_error;
  message = record {
    template = "tool {!r} is side-effecting and requires an operation name for its idempotency key";
    values = str tool_name ∷ [];
  };
}

unfoldable pub execute : ToolExecutor → Request → Call ExecutionResult
execute x q = do
  tool ← try_except (lift (resolve q.tool_name q.allowlist x.registry)) (refused q)
  if tool.spec.side_effecting && not (is_some q.operation)
      then reraise (needs_operation q.tool_name)
      else x.retrying.attempts_from x.max_attempts transient_tool_error (attempt x q tool) 1

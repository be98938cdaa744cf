-- ===== src/Tests/Data.antt =====
-- Inputs that the tests share.
use offboarding_orchestrator.Prelude.{String, false, Option, none, List, [], ◌∷◌}
use offboarding_orchestrator.Domain.RunStatus.{RunStatus}
use offboarding_orchestrator.Domain.Json.{str, list, nil, cons, Fields, end, field}
use offboarding_orchestrator.Domain.JsonText.{dumps, dumps_or_null}
use offboarding_orchestrator.Domain.Models.{Run, SideEffectRecord, EffectState, in_progress}
use offboarding_orchestrator.World.{World, ProviderEffect}
use offboarding_orchestrator.Tools.Base.{Tool}
use offboarding_orchestrator.Tools.Iam

abbrev pub run_1 : Run
run_1 = record {
  run_id = "run_1";
  thread_id = "thread_run_1";
  employee_id = "emp_7";
  status = RunStatus.running;
  created_at = 1;
  updated_at = 2;
  pause_reason = none;
  failure_reason = none;
  failure_detail = none;
  cancel_requested = false;
  step_count = 1;
  tool_call_count = 0;
  max_steps = 50;
  max_tool_calls = 3;
}

abbrev pub world_of :
    List SideEffectRecord → List ProviderEffect → List (List SideEffectRecord) → World
world_of rows applied others = record {
  db = record {
    runs = run_1 ∷ [];
    step_trace = [];
    step_trace_seq = 0;
    side_effects = rows;
    provider_effects = applied;
  };
  readings = λ n. n;
  isoformat = λ n. "2026-01-01T00:00:00+00:00";
  reads = 10;
  iam_failures = 0;
  document_failures = 0;
  others = others;
}

-- run_1 is running, and nothing was done yet.
abbrev pub fresh_world : World
fresh_world = world_of [] [] []

abbrev pub the_key : String
the_key = "run_1:deprovision_systems:revoke"

abbrev pub row_in : EffectState → Option Fields → SideEffectRecord
row_in state result = record {
  idempotency_key = the_key;
  run_id = "run_1";
  step_name = "deprovision_systems";
  tool_name = "iam.revoke_access";
  state = state;
  created_at = 5;
  completed_at = none;
  result = dumps_or_null result;
}

abbrev pub receipt : Fields
receipt = field "revocation_id" (str "rev_1") end

-- The process stopped after IAM applied the revocation.
abbrev pub crashed_world : World
crashed_world =
    world_of (row_in in_progress none ∷ [])
      (record { provider = "iam"; idempotency_key = the_key; payload = dumps receipt } ∷ []) []

abbrev pub kwargs : Fields
kwargs = field "employee_id" (str "emp_7") (field "systems" (list (cons (str "email") nil)) end)

abbrev pub iam : Tool
iam = Iam.iam_tool false false

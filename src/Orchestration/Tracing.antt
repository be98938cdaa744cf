-- ===== src/Orchestration/Tracing.antt =====
-- offboarding/orchestration/tracing.py. The body of a span gives what it returned or raised
-- together with the detail that it had set by then.
use offboarding_orchestrator.Prelude.{ℕ, String, Option, none, some, if◌then◌else◌}
use offboarding_orchestrator.Domain.Json.{Fields, end, field}
use offboarding_orchestrator.Domain.Errors.{exception, is_instance, class_name}
use offboarding_orchestrator.Domain.Result.{Result, ok, err}
use offboarding_orchestrator.Domain.Redaction.{redact_fields}
use offboarding_orchestrator.World.{Call, pure, reraise, ◌>>=◌, ◌>>◌}
use offboarding_orchestrator.Persistence.Trace

-- A body under a span: its result, with the span's detail at its end.
pub record Spanned (A : Type 0) : Type 0 where
  pub outcome : Result A
  pub detail : Fields

-- redact(span.detail) or None
abbrev pub or_none : Fields → Option Fields
or_none end = none
or_none (field k v fs) = some (field k v fs)

unfoldable pub close_span : {A : Type 0} → ℕ → Fields → Result A → Call A
close_span id detail (ok a) =
    Trace.complete_attempt id (or_none (redact_fields detail)) none >> pure a
close_span id detail (err e) =
    if is_instance e.class exception
    then Trace.fail_attempt id (class_name e.class) e.message (or_none (redact_fields detail))
      >> reraise e
    else reraise e

unfoldable pub step_span :
    {A : Type 0} → String → String → Option String → Call (Spanned A) → Call A
step_span run_id step_name tool_invoked body = do
  row ← Trace.start_attempt run_id step_name tool_invoked
  spanned ← body
  close_span row.id spanned.detail spanned.outcome

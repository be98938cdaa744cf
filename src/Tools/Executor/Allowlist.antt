-- ===== src/Tools/Executor/Allowlist.antt =====
-- tools/executor.py, for a tool outside the step's allowlist and for a run without calls left.
use package.text.Mathlib.Text.{◌==◌ as str_eq}
use offboarding_orchestrator.Prelude.{ℕ, String, true, false, ◌≡◌, refl, some, any}
use offboarding_orchestrator.Domain.Errors.{Exc, is_instance}
use offboarding_orchestrator.Domain.Result.{Result, ok, err}
use offboarding_orchestrator.Domain.Models.{Run}
use offboarding_orchestrator.Persistence.Runs
use offboarding_orchestrator.Persistence.Runs.Status.{find}
use offboarding_orchestrator.Prelude.{leb, ◌≤◌, arith}
use offboarding_orchestrator.World.{World, Call, reraise, continue}
use offboarding_orchestrator.World.Keeps.{Keeps, Keeps-bind}
use offboarding_orchestrator.Persistence.Runs.{has_run_id}
use offboarding_orchestrator.Tools.Base.{Tool, not_listed, resolve}
use offboarding_orchestrator.Tools.Executor.{
  ToolExecutor, Request, trace_refusal, refused, execute, attempt, check_budget, budget_spent,
}
use offboarding_orchestrator.Persistence.Trace.Alone.{
  TraceOnly, TraceOnly-preorder, start_attempt-TraceOnly, fail_attempt-TraceOnly,
}

trace_refusal-TraceOnly :
    (run_id step_name tool_name : String) (e : Exc)
    → Keeps TraceOnly (trace_refusal run_id step_name tool_name e)
unfolding trace_refusal
trace_refusal-TraceOnly run_id step_name tool_name e =
    search (Keeps-bind, TraceOnly-preorder, start_attempt-TraceOnly, fail_attempt-TraceOnly)

-- A raise ends what follows it.
ends_raised :
    {A B C : Type 0} (e : Exc) (f : C → Call B) (r : Result A) (w a : World)
    → TraceOnly a.db w.db
    → let n = continue {B = C} (λ _. reraise e) r w in
      ((x : Exc) × ((continue f n.0 n.1).0 ≡ err x)) × TraceOnly a.db (continue f n.0 n.1).1.db
ends_raised e f (ok _) w a h = ((e, refl), h)
ends_raised e f (err x) w a h = ((x, refl), h)

-- A request for a tool that is not in the step's allowlist raises, and changes nothing but the
-- trace: no run, no ledger row, no provider.
pub execute-not_listed :
    (x : ToolExecutor) (q : Request) (w : World)
    → any (str_eq q.tool_name) q.allowlist ≡ false
    → ((e : Exc) × ((execute x q w).0 ≡ err e)) × TraceOnly w.db (execute x q w).1.db
unfolding execute resolve refused is_instance
execute-not_listed x q w outside =
    let m = trace_refusal q.run_id q.step_name q.tool_name (not_listed q.tool_name q.allowlist) in
    rw outside (
      ends_raised (not_listed q.tool_name q.allowlist) _ (m w).0 (m w).1 w (
        (trace_refusal-TraceOnly q.run_id q.step_name q.tool_name
            (not_listed q.tool_name q.allowlist)).at
          w))

-- For a run that has used its tool calls, an attempt raises, and changes nothing but the trace: no
-- run, no ledger row, no provider.
pub attempt-spent :
    (x : ToolExecutor) (q : Request) (tool : Tool) (n : ℕ) (w : World) (r : Run)
    → find q.run_id w ≡ some r
    → r.max_tool_calls ≤ r.tool_call_count
    → ((e : Exc) × ((attempt x q tool n w).0 ≡ err e)) × TraceOnly w.db (attempt x q tool n w).1.db
unfolding attempt check_budget Runs.get
attempt-spent x q tool n w r found spent =
    let m = trace_refusal q.run_id q.step_name q.tool_name (budget_spent r) in
    let over : leb r.max_tool_calls r.tool_call_count ≡ true = ground (arith, spent) in
    rw (found, over)
      (ends_raised (budget_spent r) _ (m w).0 (m w).1 w
        ((trace_refusal-TraceOnly q.run_id q.step_name q.tool_name (budget_spent r)).at w))

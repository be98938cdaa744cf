-- ===== src/Persistence/Runs.antt =====
-- offboarding/persistence/runs.py: the `runs` table. `uuid_hex` is what `uuid.uuid4().hex[:12]`
-- gives. The rows are typed: `_to_run` parses what the same module wrote, which the round trips of
-- the enumerations cover.
use Prim.Native.String.{◌++◌ as str_append}
pub mod Status
pub mod Budget
use package.text.Mathlib.Text.{◌==◌ as str_eq}
use offboarding_orchestrator.Prelude.{
  ℕ, ◌+◌, String, Bool, true, false, ◌||◌, Option, none, some, List, [], ◌∷◌, coalesce, select_one,
  update, order_by, take, any, if◌then◌else◌, ltb,
}
use offboarding_orchestrator.Domain.RunStatus.{RunStatus}
use offboarding_orchestrator.Domain.PauseReason.{PauseReason}
use offboarding_orchestrator.Domain.FailureReason.{FailureReason}
use offboarding_orchestrator.Domain.Json.{str}
use offboarding_orchestrator.Domain.Errors.{Exc, Message, plain, run_not_found, integrity_error}
use offboarding_orchestrator.Domain.Run.{transition_run}
use offboarding_orchestrator.Domain.Models.{Run}
use offboarding_orchestrator.World.{
  Call, pure, raise, reraise, lift, gets, modify_db, ◌>>=◌, ◌>>◌, now, immediate,
}

-- WHERE run_id = ?
abbrev pub has_run_id : String → Run → Bool
has_run_id run_id r = str_eq r.run_id run_id

abbrev pub no_run : String → Exc
no_run run_id = record {
  class = run_not_found;
  message = record { template = "no run with id {!r}"; values = str run_id ∷ [] };
}

or_not_found : String → Option Run → Call Run
or_not_found run_id none = reraise (no_run run_id)
or_not_found run_id (some r) = pure r

unfoldable pub get : String → Call Run
unfolding or_not_found
get run_id w = or_not_found run_id (select_one (has_run_id run_id) w.db.runs) w

-- run_id or f"run_{uuid}"
unfoldable pub choose_id : Option String → String → String
choose_id none uuid_hex = str_append "run_" uuid_hex
choose_id (some run_id) uuid_hex = if str_eq run_id "" then str_append "run_" uuid_hex else run_id

-- PRIMARY KEY (run_id) and UNIQUE (thread_id)
abbrev pub clashes : Run → Run → Bool
clashes new r = str_eq r.run_id new.run_id || str_eq r.thread_id new.thread_id

unfoldable pub insert_run : Run → Call (Unit {0})
insert_run new = do
  rows ← gets (λ w. w.db.runs)
  if any (clashes new) rows
      then raise integrity_error (plain "UNIQUE constraint failed")
      else modify_db (λ db. record db { runs = new ∷ db.runs })

unfoldable pub create : String → Option String → ℕ → ℕ → String → Call Run
unfolding insert_run
create employee_id run_id max_steps max_tool_calls uuid_hex = do
  let rid = choose_id run_id uuid_hex
  ts ← now
  insert_run (record {
    run_id = rid;
    thread_id = str_append "thread_" rid;
    employee_id = employee_id;
    status = RunStatus.pending;
    created_at = ts;
    updated_at = ts;
    pause_reason = none;
    failure_reason = none;
    failure_detail = none;
    cancel_requested = false;
    step_count = 0;
    tool_call_count = 0;
    max_steps = max_steps;
    max_tool_calls = max_tool_calls;
  })
  get rid

-- ORDER BY created_at DESC LIMIT ?
unfoldable pub list_runs : ℕ → Call (List Run)
list_runs limit = gets (λ w. take limit (order_by (λ a b. ltb b.created_at a.created_at) w.db.runs))

abbrev pub update_run : String → (Run → Run) → Call (Unit {0})
update_run run_id f = modify_db (λ db. record db { runs = update (has_run_id run_id) f db.runs })

unfoldable pub set_status :
    String → RunStatus → Option PauseReason → Option FailureReason → Option Message → Call Run
set_status run_id target pause_reason failure_reason failure_detail = do
  immediate (do
    row ← get run_id
    lift (transition_run row.status target)
    ts ← now
    update_run run_id (λ r. record r {
      status = target;
      pause_reason = pause_reason;
      failure_reason = coalesce failure_reason r.failure_reason;
      failure_detail = coalesce failure_detail r.failure_detail;
      updated_at = ts;
    }))
  get run_id

abbrev pub with_cancel : ℕ → Run → Run
with_cancel ts r = record r { cancel_requested = true; updated_at = ts }

unfoldable pub request_cancel : String → Call Run
request_cancel run_id = do
  immediate (do get run_id; ts ← now; update_run run_id (with_cancel ts))
  get run_id

abbrev pub with_counts : ℕ → ℕ → ℕ → Run → Run
with_counts steps tool_calls ts r = record r {
  step_count = r.step_count + steps;
  tool_call_count = r.tool_call_count + tool_calls;
  updated_at = ts;
}

unfoldable pub bump_counters : String → ℕ → ℕ → Call Run
bump_counters run_id steps tool_calls = do
  ts ← now
  update_run run_id (with_counts steps tool_calls ts)
  get run_id

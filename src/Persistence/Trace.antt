-- ===== src/Persistence/Trace.antt =====
-- offboarding/persistence/trace.py: the append-only `step_trace` table.
pub mod Attempts
pub mod Alone
use package.text.Mathlib.Text.{◌==◌ as str_eq}
use offboarding_orchestrator.Prelude.{
  ℕ, suc, ◌+◌, String, Bool, ◌&&◌, Option, none, some, List, [], ◌∷◌, coalesce, select, select_one,
  update, order_by, any, if◌then◌else◌, ltb, ◌==◌,
}
use offboarding_orchestrator.Domain.StepStatus.{StepStatus}
use offboarding_orchestrator.Domain.PauseReason.{PauseReason}
use offboarding_orchestrator.Domain.Json.{Fields, num}
use offboarding_orchestrator.Domain.JsonText.{Members, dumps_or_null}
use offboarding_orchestrator.Domain.Errors.{Exc, Message, plain, key_error, integrity_error}
use offboarding_orchestrator.Domain.Run.{transition_step}
use offboarding_orchestrator.Domain.Models.{StepAttempt}
use offboarding_orchestrator.Persistence.Runs.{has_run_id}
use offboarding_orchestrator.World.{
  Call, pure, raise, reraise, lift, gets, modify_db, ◌>>=◌, ◌>>◌, now, immediate,
}

-- WHERE run_id = ? AND step_name = ?
abbrev pub is_at_step : String → String → StepAttempt → Bool
is_at_step run_id step_name r = str_eq r.run_id run_id && str_eq r.step_name step_name

abbrev pub has_id : ℕ → StepAttempt → Bool
has_id id r = r.id == id

-- ORDER BY attempt DESC LIMIT 1
abbrev pub higher : StepAttempt → Option StepAttempt → Option StepAttempt
higher r none = some r
higher r (some s) = if ltb r.attempt s.attempt then some s else some r

abbrev pub highest : List StepAttempt → Option StepAttempt
highest [] = none
highest (r ∷ rows) = higher r (highest rows)

unfoldable pub latest_for_step : String → String → Call (Option StepAttempt)
latest_for_step run_id step_name =
    gets (λ w. highest (select (is_at_step run_id step_name) w.db.step_trace))

abbrev pub no_attempt : ℕ → Exc
no_attempt id = record {
  class = key_error;
  message = record { template = "no step attempt with id {}"; values = num id ∷ [] };
}

or_missing : ℕ → Option StepAttempt → Call StepAttempt
or_missing id none = reraise (no_attempt id)
or_missing id (some r) = pure r

unfoldable pub get : ℕ → Call StepAttempt
unfolding or_missing
get id w = or_missing id (select_one (has_id id) w.db.step_trace) w

-- The number of the next attempt, if the last one may be followed by RUNNING.
unfoldable pub next_attempt : Option StepAttempt → Call ℕ
next_attempt none = pure 1
next_attempt (some row) = do
  lift (transition_step row.status StepStatus.running)
  pure (row.attempt + 1)

-- INSERT, which has the foreign key of run_id to keep; the result is `lastrowid`.
unfoldable pub insert_attempt : String → (ℕ → StepAttempt) → Call ℕ
insert_attempt run_id new = do
  known ← gets (λ w. any (has_run_id run_id) w.db.runs)
  id ← gets (λ w. suc w.db.step_trace_seq)
  if known
      then (do
        modify_db (λ db. record db { step_trace = new id ∷ db.step_trace; step_trace_seq = id })
        pure id)
      else raise integrity_error (plain "FOREIGN KEY constraint failed")

abbrev pub opened : String → String → Option String → ℕ → ℕ → ℕ → StepAttempt
opened run_id step_name tool_invoked attempt ts id = record {
  id = id;
  run_id = run_id;
  step_name = step_name;
  attempt = attempt;
  status = StepStatus.running;
  started_at = ts;
  ended_at = none;
  tool_invoked = tool_invoked;
  pause_reason = none;
  error_type = none;
  error_message = none;
  detail = Members.no_members;
}

-- The block under BEGIN IMMEDIATE: the result is the new row's id.
unfoldable pub open_attempt : String → String → Option String → Call ℕ
unfolding insert_attempt latest_for_step
open_attempt run_id step_name tool_invoked = do
  row ← latest_for_step run_id step_name
  attempt ← next_attempt row
  ts ← now
  insert_attempt run_id (opened run_id step_name tool_invoked attempt ts)

unfoldable pub start_attempt : String → String → Option String → Call StepAttempt
unfolding open_attempt
start_attempt run_id step_name tool_invoked = do
  attempt_id ← immediate (open_attempt run_id step_name tool_invoked)
  get attempt_id

abbrev pub or_old : Option Members → Members → Members
or_old none old = old
or_old (some detail) old = detail

-- What an attempt is closed with.
pub record Closing : Type 0 where
  pub target : StepStatus
  pub pause_reason : Option PauseReason
  pub error_type : Option String
  pub error_message : Option Message
  pub detail : Option Fields
  pub tool_invoked : Option String

abbrev pub closed : Closing → ℕ → StepAttempt → StepAttempt
closed c ts r = record r {
  status = c.target;
  pause_reason = c.pause_reason;
  error_type = c.error_type;
  error_message = c.error_message;
  detail = or_old (dumps_or_null c.detail) r.detail;
  tool_invoked = coalesce c.tool_invoked r.tool_invoked;
  ended_at = some ts;
}

unfoldable pub close_attempt : ℕ → Closing → Call StepAttempt
close_attempt id c = do
  immediate (do
    row ← get id
    lift (transition_step row.status c.target)
    ts ← now
    modify_db (λ db. record db { step_trace = update (has_id id) (closed c ts) db.step_trace }))
  get id

unfoldable pub complete_attempt : ℕ → Option Fields → Option String → Call StepAttempt
complete_attempt id detail tool_invoked = close_attempt id (record {
  target = StepStatus.completed;
  pause_reason = none;
  error_type = none;
  error_message = none;
  detail = detail;
  tool_invoked = tool_invoked;
})

unfoldable pub fail_attempt : ℕ → String → Message → Option Fields → Call StepAttempt
fail_attempt id error_type error_message detail = close_attempt id (record {
  target = StepStatus.failed;
  pause_reason = none;
  error_type = some error_type;
  error_message = some error_message;
  detail = detail;
  tool_invoked = none;
})

unfoldable pub pause_attempt : ℕ → PauseReason → Option Fields → Call StepAttempt
pause_attempt id pause_reason detail = close_attempt id (record {
  target = StepStatus.paused;
  pause_reason = some pause_reason;
  error_type = none;
  error_message = none;
  detail = detail;
  tool_invoked = none;
})

-- WHERE run_id = ? ORDER BY id
unfoldable pub list_for_run : String → Call (List StepAttempt)
list_for_run run_id =
    gets
      (λ w. order_by (λ a b. ltb a.id b.id) (select (λ r. str_eq r.run_id run_id) w.db.step_trace))

-- ===== src/Tools/Ledger.antt =====
-- offboarding/tools/ledger.py. `depth` is the number of nested calls of `run_once` that Python's
-- recursion limit still allows; past it Python raises RecursionError.
pub mod Provider
pub mod Replay
pub mod Recovery
pub mod Crash
pub mod FailClosed
pub mod Termination
pub mod Keeping
use Prim.Native.String.{◌++◌ as str_append}
use offboarding_orchestrator.Prelude.{
  ℕ, zero, suc, String, Bool, true, false, not, Option, none, some, List, [], ◌∷◌, is_some,
  if◌then◌else◌,
}
use offboarding_orchestrator.Domain.Json.{str, Fields, end, get_field}
use offboarding_orchestrator.Domain.JsonText.{Members, loads}
use offboarding_orchestrator.Domain.Errors.{
  Exc, plain, exception, permanent_tool_error, reconciliation_required, recursion_error, type_error,
  is_instance,
}
use offboarding_orchestrator.Domain.Result.{Result, ok, err}
use offboarding_orchestrator.Domain.Models.{
  SideEffectRecord, EffectState, reserved, in_progress, completed, failed,
}
use offboarding_orchestrator.World.{
  Call, pure, raise, reraise, try_except, with_result, ◌>>=◌, ◌>>◌,
}
use offboarding_orchestrator.Persistence.SideEffects
use offboarding_orchestrator.Persistence.SideEffects.{
  insert_effect, try_reserve, mark_in_progress, mark_completed, mark_failed,
}
use offboarding_orchestrator.Tools.Base.{Tool, is_side_effecting_tool}
use offboarding_orchestrator.Tools.Arguments.{append_field}

-- f"{run_id}:{step_name}:{operation}"
unfoldable pub build_key : String → String → String → String
build_key run_id step_name operation =
    str_append run_id (str_append ":" (str_append step_name (str_append ":" operation)))

pub record LedgerOutcome : Type 0 where
  pub result : Fields
  pub replayed : Bool
  pub reconciled : Bool

unfoldable pub performed : LedgerOutcome → Bool
performed outcome = not outcome.replayed

-- `except Exception: return None`
unfoldable pub unanswered : Exc → Call (Option Fields)
unanswered e = if is_instance e.class exception then pure none else reraise e

unfoldable pub query : Option (String → Call (Option Fields)) → String → Call (Option Fields)
query none key = pure none
query (some lookup) key = try_except (lookup key) unanswered

unfoldable pub ask_provider : Tool → String → Call (Option Fields)
ask_provider tool key = query tool.lookup key

abbrev pub cannot_reconcile : Tool → String → Exc
cannot_reconcile tool key = record {
  class = reconciliation_required;
  message = record {
    template =
        "side effect {!r} was in flight when the process stopped and {!r} cannot be queried; refusing to retry a possibly-applied effect";
    values = str key ∷ str tool.spec.name ∷ [];
  };
}

-- existing.result or {}, where existing.result is json.loads of the column
abbrev pub or_empty : Option Members → Fields
or_empty none = end
or_empty (some text) = loads text

-- What the provider's answer means for a row that is in progress.
unfoldable pub resume_in_progress : String → Tool → Option Fields → Call (Option LedgerOutcome)
resume_in_progress key tool (some landed) = do
  mark_completed key landed
  pure (some (record { result = landed; replayed = true; reconciled = true }))
resume_in_progress key tool none =
    if is_side_effecting_tool tool then pure none else reraise (cannot_reconcile tool key)

unfoldable pub resume_state :
    EffectState → SideEffectRecord → String → Tool → Call (Option LedgerOutcome)
resume_state completed existing key tool =
    pure (some (record { result = or_empty existing.result; replayed = true; reconciled = false }))
resume_state in_progress existing key tool = do
  landed ← ask_provider tool key
  resume_in_progress key tool landed
resume_state reserved existing key tool = pure none
resume_state failed existing key tool = pure none

unfoldable pub resume_existing : SideEffectRecord → String → Tool → Call (Option LedgerOutcome)
unfolding resume_state
resume_existing existing key tool = resume_state existing.state existing key tool

-- tool.call(**kwargs, idempotency_key=key)
unfoldable pub call_with_key : Tool → Fields → String → Call Fields
call_with_key tool kwargs key =
    if is_some (get_field "idempotency_key" kwargs)
    then raise type_error (plain "multiple values for keyword argument 'idempotency_key'")
    else tool.call (append_field kwargs "idempotency_key" (str key))

-- The handler of an exception of the call, after the provider was asked.
unfoldable pub recovered : String → Exc → Option Fields → Call LedgerOutcome
recovered key e (some landed) = do
  mark_completed key landed
  pure (record { result = landed; replayed = false; reconciled = true })
recovered key e none =
    if is_instance e.class permanent_tool_error then mark_failed key >> reraise e else reraise e

unfoldable pub settle : String → Tool → Result Fields → Call LedgerOutcome
settle key tool (ok result) = do
  mark_completed key result
  pure (record { result = result; replayed = false; reconciled = false })
settle key tool (err e) =
    if is_instance e.class exception then ask_provider tool key >>= recovered key e else reraise e

-- The part of `run_once` after the decision to call the tool.
unfoldable pub perform : String → Tool → Fields → Call LedgerOutcome
perform key tool kwargs = do
  mark_in_progress key
  with_result (call_with_key tool kwargs key) (settle key tool)

-- What other processes insert meanwhile; an insert that violates a constraint is theirs to handle.
unfoldable pub insert_all : List SideEffectRecord → Call (Unit {0})
insert_all [] = pure tt
insert_all (r ∷ rows) = do try_except (insert_effect r) (λ e. pure tt); insert_all rows

unfoldable pub others_insert : List (List SideEffectRecord) → Call (Unit {0})
others_insert [] w = (ok tt, w)
others_insert (rows ∷ rest) w = insert_all rows (record w { others = rest })

unfoldable pub window : Call (Unit {0})
unfolding others_insert
window w = others_insert w.others w

-- outcome if there is one, and the call otherwise
unfoldable pub unless_resumed : Call LedgerOutcome → Option LedgerOutcome → Call LedgerOutcome
unless_resumed proceed (some outcome) = pure outcome
unless_resumed proceed none = proceed

-- the call if the key was reserved, and another pass otherwise
unfoldable pub if_reserved :
    Call LedgerOutcome → Call LedgerOutcome → Option SideEffectRecord → Call LedgerOutcome
if_reserved proceed again none = again
if_reserved proceed again (some row) = proceed

-- One pass of `run_once`; `again` is its call of itself.
unfoldable pub pass :
    Call LedgerOutcome
    → String
    → String
    → String
    → Tool
    → Fields
    → Option SideEffectRecord
    → Call LedgerOutcome
pass again key run_id step_name tool kwargs (some existing) = do
  outcome ← resume_existing existing key tool
  unless_resumed (perform key tool kwargs) outcome
pass again key run_id step_name tool kwargs none = do
  window
  row ← try_reserve key run_id step_name tool.spec.name
  if_reserved (perform key tool kwargs) again row

unfoldable pub run_once : ℕ → String → String → String → Tool → Fields → Call LedgerOutcome
run_once zero key run_id step_name tool kwargs =
    raise recursion_error (plain "maximum recursion depth exceeded")
run_once (suc depth) key run_id step_name tool kwargs = do
  existing ← SideEffects.get key
  pass (run_once depth key run_id step_name tool kwargs) key run_id step_name tool kwargs existing

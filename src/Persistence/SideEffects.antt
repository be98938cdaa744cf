-- ===== src/Persistence/SideEffects.antt =====
-- offboarding/persistence/side_effects.py: the table of the idempotency ledger.
pub mod Rows
pub mod Alone
use package.text.Mathlib.Text.{◌==◌ as str_eq}
use offboarding_orchestrator.Prelude.{
  ℕ, String, Bool, true, false, not, ◌||◌, Option, none, some, List, ◌∷◌, coalesce, select,
  select_one, update, order_by, any, if◌then◌else◌, ltb,
}
use offboarding_orchestrator.Domain.Json.{Fields}
use offboarding_orchestrator.Domain.JsonText.{dumps_or_null}
use offboarding_orchestrator.Domain.Errors.{
  Exc, plain, exception, integrity_error, is_instance, Exc,
}
use offboarding_orchestrator.Domain.Models.{
  SideEffectRecord, EffectState, reserved, in_progress, completed, failed,
}
use offboarding_orchestrator.Persistence.Runs.{has_run_id}
use offboarding_orchestrator.World.{
  World, Call, pure, raise, reraise, gets, try_except, modify_db, ◌>>=◌, ◌>>◌, now,
}

-- WHERE idempotency_key = ?
abbrev pub has_key : String → SideEffectRecord → Bool
has_key key r = str_eq r.idempotency_key key

unfoldable pub get : String → Call (Option SideEffectRecord)
get key = gets (λ w. select_one (has_key key) w.db.side_effects)

-- PRIMARY KEY (idempotency_key) and the foreign key of run_id
abbrev pub violates : SideEffectRecord → World → Bool
violates new w =
    any (has_key new.idempotency_key) w.db.side_effects
    || not (any (has_run_id new.run_id) w.db.runs)

unfoldable pub insert_effect : SideEffectRecord → Call (Unit {0})
insert_effect new = do
  bad ← gets (violates new)
  if bad
      then raise integrity_error (plain "constraint failed")
      else modify_db (λ db. record db { side_effects = new ∷ db.side_effects })

-- The row that a reservation inserts.
abbrev pub reservation : String → String → String → String → ℕ → SideEffectRecord
reservation key run_id step_name tool_name ts = record {
  idempotency_key = key;
  run_id = run_id;
  step_name = step_name;
  tool_name = tool_name;
  state = reserved;
  created_at = ts;
  completed_at = none;
  result = none;
}

-- except sqlite3.IntegrityError: return None
unfoldable pub not_reserved : Exc → Call Bool
not_reserved e = if is_instance e.class integrity_error then pure false else reraise e

unfoldable pub try_reserve : String → String → String → String → Call (Option SideEffectRecord)
unfolding not_reserved
try_reserve key run_id step_name tool_name = do
  ts ← now
  inserted ←
      try_except (do insert_effect (reservation key run_id step_name tool_name ts); pure true)
        not_reserved
  if inserted then get key else pure none

-- state in (COMPLETED, FAILED)
abbrev pub is_closed : EffectState → Bool
is_closed completed = true
is_closed failed = true
is_closed _ = false

unfoldable pub assert_found : Option SideEffectRecord → Call SideEffectRecord
assert_found none = raise exception (plain "AssertionError")
assert_found (some r) = pure r

-- now() if completed else None
unfoldable pub completion_time : Bool → Call (Option ℕ)
completion_time true = do ts ← now; pure (some ts)
completion_time false = pure none

abbrev pub marked : EffectState → Option Fields → Option ℕ → SideEffectRecord → SideEffectRecord
marked state result completed_at r = record r {
  state = state;
  result = coalesce (dumps_or_null result) r.result;
  completed_at = completed_at;
}

unfoldable pub update_effect : String → (SideEffectRecord → SideEffectRecord) → Call (Unit {0})
update_effect key f =
    modify_db (λ db. record db { side_effects = update (has_key key) f db.side_effects })

unfoldable pub set_state : String → EffectState → Option Fields → Call SideEffectRecord
set_state key state result = do
  completed_at ← completion_time (is_closed state)
  update_effect key (marked state result completed_at)
  found ← get key
  assert_found found

unfoldable pub mark_in_progress : String → Call SideEffectRecord
mark_in_progress key = set_state key in_progress none

unfoldable pub mark_completed : String → Fields → Call SideEffectRecord
mark_completed key result = set_state key completed (some result)

unfoldable pub mark_failed : String → Call SideEffectRecord
mark_failed key = set_state key failed none

-- WHERE run_id = ? ORDER BY created_at
unfoldable pub list_for_run : String → Call (List SideEffectRecord)
list_for_run run_id = gets (λ w.
    order_by (λ a b. ltb a.created_at b.created_at)
      (select (λ r. str_eq r.run_id run_id) w.db.side_effects))

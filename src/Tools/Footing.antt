-- ===== src/Tools/Footing.antt =====
-- A relation between databases that every write of the ledger, the executor and the steps keeps.
-- The counters are raised only behind their check, so a relation may rely on it.
use offboarding_orchestrator.Prelude.{ℕ, String, ◌<◌, ◌≡◌, refl, Option, some}
use offboarding_orchestrator.Domain.Json.{Fields}
use offboarding_orchestrator.Domain.Errors.{Message}
use offboarding_orchestrator.Domain.PauseReason.{PauseReason}
use offboarding_orchestrator.Domain.Models.{Run, SideEffectRecord, EffectState}
use offboarding_orchestrator.World.{Db, World, Call}
use offboarding_orchestrator.World.Keeps.{Keeps, IsPreorder}
use offboarding_orchestrator.Persistence.Runs
use offboarding_orchestrator.Persistence.Runs.{bump_counters}
use offboarding_orchestrator.Persistence.Runs.Status.{find, get-state}
use offboarding_orchestrator.Persistence.Trace.{
  Closing, start_attempt, close_attempt, complete_attempt, fail_attempt, pause_attempt,
}
use offboarding_orchestrator.Persistence.Trace.Alone.{
  start_attempt-TraceOnly, close_attempt-TraceOnly,
}
use offboarding_orchestrator.Persistence.SideEffects.Rows.{row, IsOpen, marked_world}
use offboarding_orchestrator.Persistence.SideEffects.{insert_effect, try_reserve}
use offboarding_orchestrator.Persistence.SideEffects.Alone.{
  insert_effect-EffectsOnly, try_reserve-EffectsOnly,
}
use offboarding_orchestrator.Tools.Isolation.{Isolated}

pub record Footing (R : Db → Db → Type 0) : Type 0 where
  pub order : IsPreorder R
  pub isolated : (a b : Db) → Isolated a b → R a b
  pub starts :
      (run_id step_name : String) (tool : Option String)
      → Keeps R (start_attempt run_id step_name tool)
  pub closes : (id : ℕ) (c : Closing) → Keeps R (close_attempt id c)
  pub inserts : (new : SideEffectRecord) → Keeps R (insert_effect new)
  pub reserves :
      (key run_id step_name tool_name : String)
      → Keeps R (try_reserve key run_id step_name tool_name)
  -- A row is marked only while it is open.
  pub sets :
      (key : String) (state : EffectState) (result : Option Fields) (w : World)
      (r : SideEffectRecord)
      → row key w ≡ some r
      → IsOpen r
      → R w.db (marked_world key state result w).db
  pub counts_call :
      (run_id : String) (w : World) (r : Run)
      → find run_id w ≡ some r
      → r.tool_call_count < r.max_tool_calls
      → R w.db (bump_counters run_id 0 1 w).1.db
  pub counts_step :
      (run_id : String) (w : World) (r : Run)
      → find run_id w ≡ some r
      → r.step_count < r.max_steps
      → R w.db (bump_counters run_id 1 0 w).1.db

module _ {R : Db → Db → Type 0} (foot : Footing R) where
  pub preorder : IsPreorder R
  preorder = foot.order

  pub Keeps-of_Isolated : {A : Type 0} {m : Call A} → Keeps Isolated m → Keeps R m
  Keeps-of_Isolated {m} k = record { at = λ w. foot.isolated w.db (m w).1.db (k.at w) }

  pub get_keeps : (run_id : String) → Keeps R (Runs.get run_id)
  get_keeps run_id = record { at = λ w. rw (get-state run_id w) (foot.order.stay w.db) }

  pub start_keeps :
      (run_id step_name : String) (tool : Option String)
      → Keeps R (start_attempt run_id step_name tool)
  start_keeps = foot.starts

  pub complete_keeps :
      (id : ℕ) (detail : Option Fields) (tool : Option String)
      → Keeps R (complete_attempt id detail tool)
  unfolding complete_attempt
  complete_keeps id detail tool = foot.closes id _

  pub fail_keeps :
      (id : ℕ) (error_type : String) (m : Message) (detail : Option Fields)
      → Keeps R (fail_attempt id error_type m detail)
  unfolding fail_attempt
  fail_keeps id error_type m detail = foot.closes id _

  pub pause_keeps :
      (id : ℕ) (p : PauseReason) (detail : Option Fields) → Keeps R (pause_attempt id p detail)
  unfolding pause_attempt
  pause_keeps id p detail = foot.closes id _

  pub insert_keeps : (new : SideEffectRecord) → Keeps R (insert_effect new)
  insert_keeps = foot.inserts

  pub reserve_keeps :
      (key run_id step_name tool_name : String)
      → Keeps R (try_reserve key run_id step_name tool_name)
  reserve_keeps = foot.reserves

-- A relation that only looks at the runs.
pub runs_Footing :
    {R : Db → Db → Type 0}
    → IsPreorder R
    → ((a b : Db) → a.runs ≡ b.runs → R a b)
    → ((run_id : String) (w : World) (r : Run)
        → find run_id w ≡ some r
        → r.tool_call_count < r.max_tool_calls
        → R w.db (bump_counters run_id 0 1 w).1.db)
    → ((run_id : String) (w : World) (r : Run)
        → find run_id w ≡ some r
        → r.step_count < r.max_steps
        → R w.db (bump_counters run_id 1 0 w).1.db)
    → Footing R
runs_Footing order same calls steps = record {
  order = order;
  isolated = λ a b h. same a b h.runs;
  starts = λ i s t. record { at = λ w. same _ _ ((start_attempt-TraceOnly i s t).at w).runs };
  closes = λ i c. record { at = λ w. same _ _ ((close_attempt-TraceOnly i c).at w).runs };
  inserts = λ new. record { at = λ w. same _ _ ((insert_effect-EffectsOnly new).at w).runs };
  reserves = λ k i s t. record { at = λ w. same _ _ ((try_reserve-EffectsOnly k i s t).at w).runs };
  sets = λ k s f w r found is_open. same w.db (marked_world k s f w).db refl;
  counts_call = calls;
  counts_step = steps;
}

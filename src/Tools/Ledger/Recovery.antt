-- ===== src/Tools/Ledger/Recovery.antt =====
-- `run_once` on a row that was left in progress, and the row after a failure.
use offboarding_orchestrator.Prelude.{
  ℕ, suc, String, true, false, ◌≡◌, refl, ◌∙◌, inl, inr, Option, none, some, Bool-cases,
  if◌then◌else◌,
}
use offboarding_orchestrator.Domain.Json.{Fields}
use offboarding_orchestrator.Domain.Errors.{Exc, is_instance, exception, permanent_tool_error}
use offboarding_orchestrator.Domain.Result.{ok, err}
use offboarding_orchestrator.Domain.Models.{
  SideEffectRecord, EffectState, in_progress, completed, failed,
}
use offboarding_orchestrator.World.{World, Call}
use offboarding_orchestrator.Persistence.SideEffects
use offboarding_orchestrator.Persistence.SideEffects.{
  marked, is_closed, mark_in_progress, mark_completed, mark_failed,
}
use offboarding_orchestrator.Persistence.SideEffects.Rows.{
  closing_time, row, marked_world, row-marked_world, set_state_lem,
}
use offboarding_orchestrator.Tools.Base.{Tool}
use offboarding_orchestrator.Tools.Isolation.{IsIsolated}
use offboarding_orchestrator.Tools.Ledger.Provider.{
  ask_provider_Isolated, call_with_key_Isolated, row_of_Isolated,
}
use offboarding_orchestrator.Tools.Ledger.{
  cannot_reconcile, resume_existing, resume_in_progress, call_with_key, ask_provider, query,
  unanswered, recovered, settle, perform, unless_resumed, pass, run_once,
}

module _ (key run_id step_name : String) (tool : Tool) (kwargs : Fields) (depth : ℕ) (w : World)
    (r : SideEffectRecord) (found : row key w ≡ some r) (in_flight : r.state ≡ in_progress) where
  -- On a row in progress, for a tool that cannot be queried: run_once raises
  -- SideEffectReconciliationRequired and changes nothing.
  pub run_once-fails_closed :
      tool.lookup ≡ none
      → run_once (suc depth) key run_id step_name tool kwargs w
        ≡ (err (cannot_reconcile tool key), w)
  unfolding run_once SideEffects.get pass resume_existing unless_resumed ask_provider query
      resume_in_progress
  run_once-fails_closed silent = rw (found, in_flight, silent) refl

  -- On a row in progress, when the provider knows the effect and answers without a change of
  -- state: run_once returns the provider's result, replayed and reconciled, the tool is not
  -- called, and the only change is that the row is completed.
  pub run_once-adopts :
      (f : String → Call (Option Fields)) (landed : Fields)
      → tool.lookup ≡ some f
      → f key w ≡ (ok (some landed), w)
      → run_once (suc depth) key run_id step_name tool kwargs w ≡ (
        ok (record { result = landed; replayed = true; reconciled = true }),
        marked_world key completed (some landed) w,
      )
  unfolding run_once SideEffects.get pass resume_existing unless_resumed ask_provider query
      resume_in_progress mark_completed
  run_once-adopts f landed has answer =
      rw (found, in_flight, has, answer, set_state_lem key completed (some landed) w r found) refl

  -- On a row in progress, when the query of the provider raises an Exception: run_once does not
  -- fail closed but calls the tool again.
  pub run_once-unanswered :
      (f : String → Call (Option Fields)) (e : Exc)
      → tool.lookup ≡ some f
      → f key w ≡ (err e, w)
      → is_instance e.class exception ≡ true
      → run_once (suc depth) key run_id step_name tool kwargs w ≡ perform key tool kwargs w
  unfolding run_once SideEffects.get pass resume_existing unless_resumed ask_provider query
      resume_in_progress unanswered
  run_once-unanswered f e has answer caught = rw (found, in_flight, has, answer, caught) refl

-- The state that a failed call leaves its row in.
abbrev pub state_after : Exc → EffectState
state_after e = if is_instance e.class permanent_tool_error then failed else in_progress

module _ (key : String) {tool : Tool} (isolated : IsIsolated tool) (kwargs : Fields) (w : World)
    (r : SideEffectRecord) (found : row key w ≡ some r) where
  abbrev pub called_world : World
  called_world = (call_with_key tool kwargs key (marked_world key in_progress none w)).1

  abbrev asked_world : World
  asked_world = (ask_provider tool key called_world).1

  asked_row : row key asked_world ≡ row key (marked_world key in_progress none w)
  asked_row =
      row_of_Isolated key called_world asked_world
        ((ask_provider_Isolated isolated key).at called_world)
      ∙ row_of_Isolated key (marked_world key in_progress none w) called_world
          ((call_with_key_Isolated isolated kwargs key).at (marked_world key in_progress none w))

  left_row :
      row key asked_world
      ≡ some (marked in_progress none (closing_time (is_closed in_progress) w) r)
  left_row = asked_row ∙ row-marked_world key in_progress none w found

  module _ (e : Exc)
      (raised : (call_with_key tool kwargs key (marked_world key in_progress none w)).0 ≡ err e)
      (caught : is_instance e.class exception ≡ true)
      (unknown : (ask_provider tool key called_world).0 ≡ ok none) where
    perform_permanent :
        is_instance e.class permanent_tool_error ≡ true
        → perform key tool kwargs w ≡ (err e, marked_world key failed none asked_world)
    unfolding perform mark_in_progress settle recovered mark_failed
    perform_permanent permanent =
        rw
          (
            set_state_lem key in_progress none w r found,
            raised,
            caught,
            unknown,
            permanent,
            set_state_lem key failed none asked_world _ left_row,
          )
          refl

    perform_other :
        is_instance e.class permanent_tool_error ≡ false
        → perform key tool kwargs w ≡ (err e, asked_world)
    unfolding perform mark_in_progress settle recovered
    perform_other other =
        rw (set_state_lem key in_progress none w r found, raised, caught, unknown, other) refl

    -- For a tool that only adds to its provider's own table and a key that has a row: when the
    -- call raises and the provider then says that it knows no effect, that exception is raised,
    -- and the row is left failed for a permanent error and in progress for any other.
    pub perform-fails :
        ((perform key tool kwargs w).0 ≡ err e)
        × (r' : SideEffectRecord) × (row key (perform key tool kwargs w).1 ≡ some r')
        × (r'.state ≡ state_after e)
    perform-fails = elim (Bool-cases (is_instance e.class permanent_tool_error)) [
      | inl permanent ↦
          rw (perform_permanent permanent, permanent)
            (refl, _, row-marked_world key failed none asked_world left_row, refl)
      | inr other ↦ rw (perform_other other, other) (refl, _, left_row, refl)
    ]

  -- The call raises what is no Exception: the process dies.
  module _ (e : Exc)
      (raised : (call_with_key tool kwargs key (marked_world key in_progress none w)).0 ≡ err e)
      (died : is_instance e.class exception ≡ false) where
    pub perform_died : perform key tool kwargs w ≡ (err e, called_world)
    unfolding perform mark_in_progress settle
    perform_died = rw (set_state_lem key in_progress none w r found, raised, died) refl

-- ===== src/Tools/Ledger/FailClosed.antt =====
-- ledger.py, when the process dies in the call of a tool that cannot be queried.
use offboarding_orchestrator.Prelude.{ℕ, suc, String, true, false, ◌≡◌, refl, ◌∙◌, none, [], any}
use offboarding_orchestrator.Domain.Json.{Fields}
use offboarding_orchestrator.Domain.Errors.{Exc, exception, reconciliation_required, is_instance}
use offboarding_orchestrator.Domain.Result.{err}
use offboarding_orchestrator.Domain.Models.{in_progress}
use offboarding_orchestrator.World.{World}
use offboarding_orchestrator.Persistence.Runs.{has_run_id}
use offboarding_orchestrator.Persistence.SideEffects.Rows.{
  row, marked_world, row-marked_world, reserved_world, row-reserved_world,
}
use offboarding_orchestrator.Tools.Base.{Tool}
use offboarding_orchestrator.Tools.Isolation.{IsIsolated}
use offboarding_orchestrator.Tools.Ledger.{cannot_reconcile, call_with_key, run_once}
use offboarding_orchestrator.Tools.Ledger.Provider.{call_with_key_Isolated, row_of_Isolated}
use offboarding_orchestrator.Tools.Ledger.Recovery.{perform_died, run_once-fails_closed}
use offboarding_orchestrator.Tools.Ledger.Crash.{run_once_new}

module _ (key run_id step_name : String) {tool : Tool} (isolated : IsIsolated tool)
    (kwargs : Fields) (depth : ℕ) (w : World) (silent : tool.lookup ≡ none) (new : row key w ≡ none)
    (known : any (has_run_id run_id) w.db.runs ≡ true) (alone : w.others ≡ []) where
  abbrev pub started : World
  started = reserved_world key run_id step_name tool.spec.name w

  -- The world in which the tool is called.
  abbrev pub calling : World
  calling = marked_world key in_progress none started

  -- And the one that the call leaves.
  abbrev pub called : World
  called = (call_with_key tool kwargs key calling).1

  module _ (e : Exc) (raised : (call_with_key tool kwargs key calling).0 ≡ err e)
      (died : is_instance e.class exception ≡ false) where
    run_dies : run_once (suc depth) key run_id step_name tool kwargs w ≡ (err e, called)
    run_dies =
        run_once_new key run_id step_name tool kwargs depth w new known alone
        ∙ perform_died key isolated kwargs started _
            (row-reserved_world key run_id step_name tool.spec.name w) e raised died

    left_row : row key called ≡ row key calling
    left_row =
        row_of_Isolated key calling called ((call_with_key_Isolated isolated kwargs key).at calling)

    -- For a tool that only adds to its provider's own table and cannot be queried, a key without a
    -- row, a run that exists and no other process inserting: when the call raises what is no
    -- Exception (the process dies), run_once raises it and leaves what the call left; and from
    -- there run_once of the key with that tool, for any run and step and with any arguments,
    -- raises an exception of the class SideEffectReconciliationRequired and changes nothing, so
    -- the tool is not called again.
    pub run_once-FailsClosed :
        (later_run later_step : String) (again : Fields) (later_depth : ℕ)
        → (run_once (suc depth) key run_id step_name tool kwargs w ≡ (err e, called))
          × (r : Exc) × (r.class ≡ reconciliation_required)
          × (run_once (suc later_depth) key later_run later_step tool again called
              ≡ (err r, called))
    run_once-FailsClosed later_run later_step again later_depth = (
      run_dies,
      cannot_reconcile tool key,
      refl,
      run_once-fails_closed key later_run later_step tool again later_depth called _
          (left_row
            ∙ row-marked_world key in_progress none started
                (row-reserved_world key run_id step_name tool.spec.name w))
          refl silent,
    )

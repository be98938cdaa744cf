-- ===== src/Tools/Ledger/Crash.antt =====
-- iam.py under the ledger, when the process dies after IAM applied the revocation.
use Prim.Native.String.{◌++◌ as str_append}
use offboarding_orchestrator.Prelude.{
  ℕ, suc, String, true, false, ◌≡◌, refl, ap, ◌∙◌, none, some, [], ◌∷◌, select_one, any,
  any-eq-is_some, eq_refl,
}
use offboarding_orchestrator.Domain.Json.{Value, str, list, Items, Fields, end, field}
use offboarding_orchestrator.Domain.JsonText.{dumps, as_json}
use offboarding_orchestrator.Domain.Errors.{Exc, plain, base_exception, is_instance}
use offboarding_orchestrator.Domain.Result.{ok, err}
use offboarding_orchestrator.Domain.Models.{SideEffectRecord, in_progress, completed}
use offboarding_orchestrator.World.{World, is_effect, now}
use offboarding_orchestrator.Persistence.SideEffects.Rows.{
  row, marked_world, row-marked_world, reserved_world, row-reserved_world, try_reserve_new,
}
use offboarding_orchestrator.Persistence.SideEffects
use offboarding_orchestrator.Persistence.Runs.{has_run_id}
use offboarding_orchestrator.Tools.Base.{Tool}
use offboarding_orchestrator.Tools.Iam
use offboarding_orchestrator.Tools.Iam.{iam_spec, iam_tool}
use offboarding_orchestrator.Tools.Providers
use offboarding_orchestrator.Tools.Providers.{unless_applied}
use offboarding_orchestrator.Tools.Arguments.{
  append_field, argument, check_names, last_12, or_type_error, to_list,
}
use offboarding_orchestrator.Tools.Contracts.{iam_tool-IsIsolated}
use offboarding_orchestrator.Tools.Ledger.{
  LedgerOutcome, call_with_key, perform, run_once, pass, window, others_insert, if_reserved,
}
use offboarding_orchestrator.Tools.Ledger.Recovery.{perform_died, run_once-adopts}

-- What IAM returns for a revocation.
abbrev pub revocation : String → Value → Items → Fields
revocation key employee_id systems = field "employee_id" employee_id (
    field "revoked_systems" (list systems)
      (field "revocation_id" (str (str_append "rev_" (last_12 key))) end))

-- What run_once returns for a revocation that it finds at IAM.
abbrev pub adopted_revocation : String → Value → Items → LedgerOutcome
adopted_revocation key employee_id systems = record {
  result = as_json (revocation key employee_id systems);
  replayed = true;
  reconciled = true;
}

abbrev pub revoke_arguments : Value → Items → Fields
revoke_arguments employee_id systems =
    field "employee_id" employee_id (field "systems" (list systems) end)

abbrev pub died : Exc
died = record {
  class = base_exception;
  message = plain "process died after IAM applied the revocation";
}

-- The world once IAM has applied the revocation.
abbrev pub applied_world : String → Fields → World → World
applied_world key payload w = record w {
  db = record w.db {
    provider_effects =
        record { provider = "iam"; idempotency_key = key; payload = dumps payload }
        ∷ w.db.provider_effects;
  };
  reads = suc w.reads;
}

-- The world when the process has died: the row in progress and the revocation applied.
abbrev pub dead_world : String → Value → Items → World → World
dead_world key employee_id systems w =
    applied_world key (revocation key employee_id systems) (marked_world key in_progress none w)

module _ (key : String) (employee_id : Value) (systems : Items) (w : World)
    (ready : w.iam_failures ≡ 0)
    (unknown : select_one (is_effect "iam" key) w.db.provider_effects ≡ none) where
  call-crashes :
      call_with_key (iam_tool false true) (revoke_arguments employee_id systems) key w
      ≡ (err died, applied_world key (revocation key employee_id systems) w)
  unfolding call_with_key iam_tool Iam.call Iam.revoke Iam.apply_revocation append_field argument
      check_names or_type_error to_list Providers.lookup Providers.record_effect unless_applied now
  call-crashes =
      rw (unknown, ready, any-eq-is_some (is_effect "iam" key) w.db.provider_effects, unknown) refl

  lookup-applied :
      (payload : Fields)
      → Providers.lookup "iam" key (applied_world key payload w)
        ≡ (ok (some (as_json payload)), applied_world key payload w)
  unfolding Providers.lookup
  lookup-applied payload = rw (eq_refl key) refl

module _ (key : String) (employee_id : Value) (systems : Items) (w : World) (r : SideEffectRecord)
    (found : row key w ≡ some r) (ready : w.iam_failures ≡ 0)
    (unknown : select_one (is_effect "iam" key) w.db.provider_effects ≡ none) where
  perform-dies :
      perform key (iam_tool false true) (revoke_arguments employee_id systems) w
      ≡ (err died, dead_world key employee_id systems w)
  unfolding is_instance
  perform-dies =
      perform_died key (iam_tool-IsIsolated false true) (revoke_arguments employee_id systems) w r
        found died
        (ap (λ p. p.0)
          (call-crashes key employee_id systems (marked_world key in_progress none w) ready
            unknown))
        refl
      ∙ ap (λ p. (err died, p.1))
          (call-crashes key employee_id systems (marked_world key in_progress none w) ready unknown)

  crashed_run :
      (run_id step_name : String) (again : Fields) (depth : ℕ)
      → run_once
          (suc depth)
          key
          run_id
          step_name
          (iam_tool false false)
          again
          (dead_world key employee_id systems w)
        ≡ (
          ok (adopted_revocation key employee_id systems),
          marked_world key completed
              (some (as_json (revocation key employee_id systems)))
              (dead_world key employee_id systems w),
        )
  unfolding iam_tool
  crashed_run run_id step_name again depth =
      run_once-adopts key run_id step_name (iam_tool false false) again depth
        (dead_world key employee_id systems w) _ (row-marked_world key in_progress none w found)
        refl (Providers.lookup "iam") (as_json (revocation key employee_id systems)) refl
        (lookup-applied key employee_id systems (marked_world key in_progress none w) ready unknown
          (revocation key employee_id systems))

window_alone : (w : World) → w.others ≡ [] → window w ≡ (ok tt, w)
unfolding window others_insert
window_alone w alone = ap (λ rows. others_insert rows w) alone

-- The first reservation of a key, with no other process inserting.
pub run_once_new :
    (key run_id step_name : String) (tool : Tool) (kwargs : Fields) (depth : ℕ) (w : World)
    → row key w ≡ none
    → any (has_run_id run_id) w.db.runs ≡ true
    → w.others ≡ []
    → run_once (suc depth) key run_id step_name tool kwargs w
      ≡ perform key tool kwargs (reserved_world key run_id step_name tool.spec.name w)
unfolding run_once pass SideEffects.get if_reserved
run_once_new key run_id step_name tool kwargs depth w new known alone =
    rw (new, window_alone w alone, try_reserve_new key run_id step_name tool.spec.name w new known)
      refl

module _ (key run_id step_name : String) (employee_id : Value) (systems : Items) (depth : ℕ)
    (w : World) (new : row key w ≡ none) (known : any (has_run_id run_id) w.db.runs ≡ true)
    (alone : w.others ≡ []) (ready : w.iam_failures ≡ 0)
    (unknown : select_one (is_effect "iam" key) w.db.provider_effects ≡ none) where
  -- The row is reserved.
  abbrev pub started : World
  started = reserved_world key run_id step_name iam_spec.name w

  -- For a key without a row, a run that exists, no other process inserting, and an IAM with no
  -- failures left and no effect for the key: run_once with the IAM tool that dies after applying
  -- the revocation raises that exception, and leaves the row in progress and one revocation more
  -- at IAM; run_once of the key in the process that follows, for any run and step and with any
  -- arguments, returns that revocation as JSON gives it back, replayed and reconciled, leaves IAM
  -- as it is, and only completes the row.
  pub run_once-crashed :
      (later_run later_step : String) (again : Fields) (later_depth : ℕ)
      → (run_once
            (suc depth)
            key
            run_id
            step_name
            (iam_tool false true)
            (revoke_arguments employee_id systems)
            w
          ≡ (err died, dead_world key employee_id systems started))
        × (run_once
              (suc later_depth)
              key
              later_run
              later_step
              (iam_tool false false)
              again
              (dead_world key employee_id systems started)
            ≡ (
              ok (adopted_revocation key employee_id systems),
              marked_world key completed
                  (some (as_json (revocation key employee_id systems)))
                  (dead_world key employee_id systems started),
            ))
  unfolding iam_tool
  run_once-crashed later_run later_step again later_depth = (
    run_once_new key run_id step_name (iam_tool false true) (revoke_arguments employee_id systems)
          depth w new known alone
        ∙ perform-dies key employee_id systems started _
            (row-reserved_world key run_id step_name iam_spec.name w) ready unknown,
    crashed_run key employee_id systems started _
        (row-reserved_world key run_id step_name iam_spec.name w) ready unknown later_run later_step
        again later_depth,
  )

-- ===== src/Tests/Ledger.antt =====
-- The ledger on small inputs.
use offboarding_orchestrator.Prelude.{true, false, ◌≡◌, refl, none, some, [], ◌∷◌}
use offboarding_orchestrator.Domain.Json.{str, list, nil, cons, Fields, end, field}
use offboarding_orchestrator.Domain.JsonText.{as_json}
use offboarding_orchestrator.Domain.Errors.{
  Exc, plain, permanent_tool_error, exception, reconciliation_required,
}
use offboarding_orchestrator.Domain.Result.{Result, ok, err}
use offboarding_orchestrator.Domain.Models.{SideEffectRecord, reserved, in_progress, completed}
use offboarding_orchestrator.World.{World, raise}
use offboarding_orchestrator.Persistence.SideEffects
use offboarding_orchestrator.Persistence.SideEffects.Rows.{
  row, marked_world, reserved_world as reserved_world_of,
}
use offboarding_orchestrator.Tools.Isolation.{IsIsolated}
use offboarding_orchestrator.Tools.Ledger.FailClosed.{run_once-FailsClosed}
use offboarding_orchestrator.Tools.Ledger.Crash.{
  died, dead_world, revocation, revoke_arguments, adopted_revocation, run_once-crashed,
}
use offboarding_orchestrator.Tools.Base.{Tool}
use offboarding_orchestrator.Tools.Iam
use offboarding_orchestrator.Tools.Providers
use offboarding_orchestrator.Tools.Contracts.{iam_tool-IsIsolated}
use offboarding_orchestrator.Tools.Ledger.{LedgerOutcome, perform, run_once}
use offboarding_orchestrator.Tools.Ledger.Replay.{
  IsSettled, run_once-completed, run_once-IsSettled, run_once_twice,
}
use offboarding_orchestrator.Tools.Ledger.Recovery.{
  run_once-adopts, run_once-unanswered, state_after, perform-fails,
}
use offboarding_orchestrator.Tools.Ledger.Termination.{
  too_deep, run_once-unknown_run, run_once_two_passes, run_once_raced,
}
use offboarding_orchestrator.Tools.Ledger.{
  pass, window, if_reserved, settle, call_with_key, insert_all, others_insert, ask_provider, query,
  recovered, resume_existing, resume_in_progress, resume_state, unanswered, unless_resumed,
}
use offboarding_orchestrator.Persistence.SideEffects.{
  try_reserve, mark_in_progress, mark_completed, mark_failed,
}
use offboarding_orchestrator.World.{now}
use offboarding_orchestrator.Domain.Errors.{is_instance}
use offboarding_orchestrator.Tools.Arguments.{
  append_field, argument, check_names, last_12, or_type_error, to_list,
}
use offboarding_orchestrator.Tools.Providers.{unless_applied}
use offboarding_orchestrator.Tests.Data.{
  world_of, fresh_world, the_key, row_in, receipt, crashed_world, kwargs, iam,
}

abbrev replayed_outcome : Fields → LedgerOutcome
replayed_outcome result = record { result = as_json result; replayed = true; reconciled = false }

abbrev run : World → Result LedgerOutcome × World
run = run_once 5 the_key "run_1" "deprovision_systems" iam kwargs

run_once-completed_example :
    run_once 1 the_key "run_1" "deprovision_systems" iam kwargs
      (world_of (row_in completed (some receipt) ∷ []) [] [])
    ≡ (ok (replayed_outcome receipt), world_of (row_in completed (some receipt) ∷ []) [] [])
run_once-completed_example =
    run_once-completed the_key "run_1" "deprovision_systems" iam kwargs
      (world_of (row_in completed (some receipt) ∷ []) [] []) 0 (row_in completed (some receipt))
      refl refl

run_once-IsSettled_example : IsSettled the_key (run fresh_world)
run_once-IsSettled_example =
    run_once-IsSettled the_key (iam_tool-IsIsolated false false) "run_1" "deprovision_systems"
      kwargs 5 fresh_world

revoked : LedgerOutcome
revoked = record {
  result = field "employee_id" (str "emp_7") (
      field "revoked_systems" (list (cons (str "email") nil))
        (field "revocation_id" (str "rev_stems:revoke") end));
  replayed = false;
  reconciled = false;
}

fresh_run : (run fresh_world).0 ≡ ok revoked
unfolding revoked run_once pass window if_reserved perform settle call_with_key insert_all
    others_insert ask_provider query recovered resume_existing resume_in_progress resume_state
    unanswered unless_resumed SideEffects.get try_reserve SideEffects.insert_effect
    SideEffects.not_reserved mark_in_progress mark_completed mark_failed SideEffects.set_state
    SideEffects.completion_time SideEffects.update_effect SideEffects.assert_found now is_instance
    append_field argument check_names last_12 or_type_error to_list Iam.iam_tool Iam.call
    Iam.apply_revocation Iam.fail_once Iam.revoke Providers.lookup Providers.record_effect
    unless_applied
fresh_run = refl

run_once_twice_example :
    run_once 1 the_key "run_2" "audit" iam end (run fresh_world).1
    ≡ (ok (replayed_outcome revoked.result), (run fresh_world).1)
run_once_twice_example =
    run_once_twice the_key (iam_tool-IsIsolated false false) "run_1" "deprovision_systems" kwargs 5
      fresh_world "run_2" "audit" iam end 0 fresh_run

-- IAM, without its query.
abbrev silent : Tool
silent = record iam { lookup = none }

-- IAM, with a query that always fails.
abbrev unreachable : Tool
unreachable = record iam { lookup = some λ key. raise exception (plain "connection timed out") }

abbrev has_lookup : iam.lookup ≡ some (Providers.lookup "iam")
unfolding Iam.iam_tool
has_lookup = refl

abbrev landed :
    Providers.lookup "iam" the_key crashed_world ≡ (ok (some (as_json receipt)), crashed_world)
unfolding Providers.lookup
landed = refl

run_once-adopts_example :
    run_once 1 the_key "run_1" "deprovision_systems" iam kwargs crashed_world ≡ (
      ok (record { result = as_json receipt; replayed = true; reconciled = true }),
      marked_world the_key completed (some (as_json receipt)) crashed_world,
    )
run_once-adopts_example =
    run_once-adopts the_key "run_1" "deprovision_systems" iam kwargs 0 crashed_world
      (row_in in_progress none) refl refl (Providers.lookup "iam") (as_json receipt) has_lookup
      landed

run_once-unanswered_example :
    run_once 1 the_key "run_1" "deprovision_systems" unreachable kwargs crashed_world
    ≡ perform the_key unreachable kwargs crashed_world
unfolding is_instance
run_once-unanswered_example =
    run_once-unanswered the_key "run_1" "deprovision_systems" unreachable kwargs 0 crashed_world
      (row_in in_progress none) refl refl (λ key. raise exception (plain "connection timed out"))
      (record { class = exception; message = plain "connection timed out" }) refl refl refl

-- IAM, refusing for good.
abbrev on_hold : Exc
on_hold = record {
  class = permanent_tool_error;
  message = record {
    template = "iam rejected the revocation for {!r}: account is under legal hold";
    values = str "emp_7" ∷ [];
  };
}

abbrev reserved_world : World
reserved_world = world_of (row_in reserved none ∷ []) [] []

perform-fails_example :
    let end_of_call = perform the_key (Iam.iam_tool true false) kwargs reserved_world in
    (end_of_call.0 ≡ err on_hold)
    × (r : SideEffectRecord) × (row the_key end_of_call.1 ≡ some r)
    × (r.state ≡ state_after on_hold)
unfolding run_once pass window if_reserved perform settle call_with_key insert_all others_insert
    ask_provider query recovered resume_existing resume_in_progress resume_state unanswered
    unless_resumed SideEffects.get try_reserve SideEffects.insert_effect SideEffects.not_reserved
    mark_in_progress mark_completed mark_failed SideEffects.set_state SideEffects.completion_time
    SideEffects.update_effect SideEffects.assert_found now is_instance append_field argument
    check_names last_12 or_type_error to_list Iam.iam_tool Iam.call Iam.apply_revocation
    Iam.fail_once Iam.revoke Providers.lookup Providers.record_effect unless_applied
perform-fails_example =
    perform-fails the_key (iam_tool-IsIsolated true false) kwargs reserved_world
      (row_in reserved none) refl on_hold refl refl refl

run_once-unknown_run_example :
    (run_once 100 the_key "run_9" "deprovision_systems" iam kwargs fresh_world).0 ≡ err too_deep
run_once-unknown_run_example =
    run_once-unknown_run the_key "run_9" "deprovision_systems" iam kwargs 100 fresh_world refl refl
      refl

run_once_two_passes_example :
    run_once 2 the_key "run_1" "deprovision_systems" iam kwargs fresh_world
    ≡ run_once 900 the_key "run_1" "deprovision_systems" iam kwargs fresh_world
run_once_two_passes_example =
    run_once_two_passes the_key "run_1" "deprovision_systems" iam kwargs 0 898 fresh_world refl

-- Another process reserves the key first.
abbrev raced_world : World
raced_world = world_of [] [] ((row_in reserved none ∷ []) ∷ [])

run_once_raced_example :
    (w' : World) × (row the_key w' ≡ some (row_in reserved none))
    × (run_once 3 the_key "run_1" "deprovision_systems" iam kwargs raced_world
        ≡ perform the_key iam kwargs w')
run_once_raced_example =
    run_once_raced the_key "run_1" "deprovision_systems" iam kwargs 1 raced_world
      (row_in reserved none) [] refl refl refl refl refl

abbrev dead : World
dead =
    dead_world the_key (str "emp_7") (cons (str "email") nil)
      (reserved_world_of the_key "run_1" "deprovision_systems" "iam.revoke_access" fresh_world)

run_once-crashed_example :
    (run_once 5 the_key "run_1" "deprovision_systems"
        (Iam.iam_tool false true)
        (revoke_arguments (str "emp_7") (cons (str "email") nil))
        fresh_world
      ≡ (err died, dead))
    × (run_once 5 the_key "run_1" "deprovision_systems" iam kwargs dead ≡ (
      ok (adopted_revocation the_key (str "emp_7") (cons (str "email") nil)),
      marked_world the_key completed
          (some (as_json (revocation the_key (str "emp_7") (cons (str "email") nil))))
          dead,
    ))
unfolding Iam.iam_tool
run_once-crashed_example =
    run_once-crashed the_key "run_1" "deprovision_systems" (str "emp_7") (cons (str "email") nil) 4
      fresh_world refl refl refl refl refl "run_1" "deprovision_systems" kwargs 4

-- IAM, without its query, dying after it applied the revocation.
abbrev dying : Tool
dying = record (Iam.iam_tool false true) { lookup = none }

dying-IsIsolated : IsIsolated dying
unfolding Iam.iam_tool
dying-IsIsolated = record {
  call = (iam_tool-IsIsolated false true).call;
  lookup = λ f key e. absurd (cc);
}

abbrev dead_in_call : World
dead_in_call =
    (call_with_key dying kwargs the_key (
      marked_world the_key in_progress none
        (reserved_world_of the_key "run_1" "deprovision_systems" dying.spec.name fresh_world))).1

run_once-FailsClosed_example :
    (run_once 5 the_key "run_1" "deprovision_systems" dying kwargs fresh_world
      ≡ (err died, dead_in_call))
    × (r : Exc) × (r.class ≡ reconciliation_required)
    × (run_once 3 the_key "run_1" "deprovision_systems" dying kwargs dead_in_call
        ≡ (err r, dead_in_call))
unfolding call_with_key append_field argument check_names last_12 or_type_error to_list Iam.iam_tool
    Iam.call Iam.apply_revocation Iam.fail_once Iam.revoke Providers.lookup Providers.record_effect
    unless_applied now is_instance
run_once-FailsClosed_example =
    run_once-FailsClosed the_key "run_1" "deprovision_systems" dying-IsIsolated kwargs 4 fresh_world
      refl refl refl refl died refl refl "run_1" "deprovision_systems" kwargs 2

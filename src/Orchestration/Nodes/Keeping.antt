-- ===== src/Orchestration/Nodes/Keeping.antt =====
-- The steps of nodes.py and a relation with a footing.
use offboarding_orchestrator.Prelude.{if◌then◌else◌, ℕ, String, Option, none, some, All}
use offboarding_orchestrator.Domain.StepName.{StepName}
use offboarding_orchestrator.Domain.PauseReason.{PauseReason}
use offboarding_orchestrator.Domain.Json.{Value, str, dict, Items, nil, cons, Fields, get_field}
use offboarding_orchestrator.Domain.Result.{Result, ok, err}
use offboarding_orchestrator.World.{World, Call, pure, ◌>>=◌, ◌>>◌}
use offboarding_orchestrator.World.Keeps.{
  Keeps, Keeps-bind, Keeps-pure, Keeps-raise, Keeps-reraise, Keeps-if, Keeps-gets,
  Keeps-with_result, continue-Keeps,
}
use offboarding_orchestrator.Persistence.Trace
use offboarding_orchestrator.Tools.Arguments.{to_list, len}
use offboarding_orchestrator.Tools.Isolation.{IsIsolated}
use offboarding_orchestrator.Tools.Contracts.{to_list_Isolated, len_Isolated}
use offboarding_orchestrator.Tools.Executor.{Request, execute}
use offboarding_orchestrator.Llm.Provider.{LlmProvider, DeprovisioningPlan}
use offboarding_orchestrator.Orchestration.State.{
  state_item, or_key_error, item, text_item, text_or_error, systems_of,
}
use offboarding_orchestrator.Orchestration.Tracing.{Spanned, close_span, step_span}
use offboarding_orchestrator.Orchestration.Nodes.{
  Services, guard, cancelled_before, steps_spent, already_paused_here, trace_pause,
}
use offboarding_orchestrator.Orchestration.Nodes.Planning.{
  fetch_employee, planned, plan_deprovisioning,
}
use offboarding_orchestrator.Orchestration.Nodes.Pauses.{
  after_approval, await_hr_approval, sent_document, after_document, await_signed_document,
}
use offboarding_orchestrator.Orchestration.Nodes.Effects.{
  revoke_access, send_exit_paperwork, approver_in, approver_of, finalize,
}
use offboarding_orchestrator.Orchestration.Graph.{node}
use offboarding_orchestrator.World.{Db, reraise}
use offboarding_orchestrator.Prelude.{
  leb, ◌≡◌, Option-cases, Bool-cases, inl, inr, arith, select_one_sound, eq_iff, sym,
}
use mathlib.Core.Path.{subst}
use offboarding_orchestrator.Domain.Models.{Run}
use offboarding_orchestrator.Persistence.Runs
use offboarding_orchestrator.Persistence.Runs.{has_run_id}
use offboarding_orchestrator.Persistence.Runs.Status.{find}
use offboarding_orchestrator.Tools.Executor.Keeping.{execute_keeps}
use offboarding_orchestrator.Tools.Footing.{
  Footing, preorder, Keeps-of_Isolated, get_keeps, start_keeps, complete_keeps, fail_keeps,
  pause_keeps,
}

-- What the guard does with the run's id.
abbrev passes : StepName → String → Call (Unit {0})
passes step run_id = do
  run ← Runs.get run_id
  if run.cancel_requested
      then reraise (cancelled_before run step)
      else if leb run.max_steps run.step_count
      then reraise (steps_spent run)
      else (do Runs.bump_counters run.run_id 1 0; pure tt)

own_row :
    (run_id : String) (w : World) (r : Run) → find run_id w ≡ some r → find r.run_id w ≡ some r
own_row run_id w r found =
    let own : r.run_id ≡ run_id =
      ground
        (arith, select_one_sound (has_run_id run_id) w.db.runs found, eq_iff r.run_id run_id) in
    subst (λ (k : String). find k w ≡ some r) (sym own) found

ruleset call_rules = (
  Keeps-bind, Keeps-pure, Keeps-raise, Keeps-reraise, Keeps-if, Keeps-gets, Keeps-with_result,
  preorder, get_keeps, start_keeps, complete_keeps, fail_keeps, pause_keeps,
)

module _ {R : Db → Db → Type 0} (foot : Footing R) where
  or_key_error_keeps : (key : String) (o : Option Value) → Keeps R (or_key_error key o)
  unfolding or_key_error
  or_key_error_keeps key none = search call_rules
  or_key_error_keeps key (some v) = search call_rules

  state_item_keeps : (key : String) (fs : Fields) → Keeps R (state_item key fs)
  unfolding state_item
  state_item_keeps key fs = or_key_error_keeps key (get_field key fs)

  item_keeps : (key : String) (v : Value) → Keeps R (item key v)
  unfolding item
  item_keeps key (dict fs) = state_item_keeps key fs
  item_keeps key _ = search call_rules

  text_or_error_keeps : (v : Value) → Keeps R (text_or_error v)
  unfolding text_or_error
  text_or_error_keeps (str s) = search call_rules
  text_or_error_keeps _ = search call_rules

  text_item_keeps : (key : String) (fs : Fields) → Keeps R (text_item key fs)
  unfolding text_item
  text_item_keeps key fs = search (call_rules, state_item_keeps, text_or_error_keeps)

  systems_of_keeps : (xs : Items) → Keeps R (systems_of xs)
  unfolding systems_of
  systems_of_keeps nil = search call_rules
  systems_of_keeps (cons x xs) = Keeps-bind foot.order _ _ (item_keeps "system" x) λ system.
      Keeps-bind foot.order _ _ (systems_of_keeps xs)
        λ rest. Keeps-pure foot.order (cons system rest)

  to_list_keeps : (v : Value) → Keeps R (to_list v)
  to_list_keeps v = Keeps-of_Isolated foot (to_list_Isolated v)

  len_keeps : (v : Value) → Keeps R (len v)
  len_keeps v = Keeps-of_Isolated foot (len_Isolated v)

  ruleset state_rules = (
    call_rules, state_item_keeps, item_keeps, text_item_keeps, systems_of_keeps, to_list_keeps,
    len_keeps,
  )

  passed_keeps : (step : StepName) (run_id : String) → Keeps R (passes step run_id)
  unfolding Runs.get
  passed_keeps step run_id = record {
    at = λ w. elim (Option-cases (find run_id w)) [
      | inl missing ↦ rw missing (foot.order.stay w.db)
      | inr (r, found) ↦ elim (Bool-cases r.cancel_requested) [
        | inl flagged ↦ rw (found, flagged) (foot.order.stay w.db)
        | inr live ↦ elim (Bool-cases (leb r.max_steps r.step_count)) [
          | inl spent ↦ rw (found, live, spent) (foot.order.stay w.db)
          | inr more ↦
              rw (found, live, more)
                (foot.order.chain w.db _ _
                  (foot.counts_step r.run_id w r (own_row run_id w r found) (ground (arith, more)))
                  (continue-Keeps foot.order _ _ _ (λ _. Keeps-pure foot.order tt)))
        ]
      ]
    ];
  }

  guard_keeps : (state : Fields) (step : StepName) → Keeps R (guard state step)
  unfolding guard
  guard_keeps state step =
      Keeps-bind foot.order _ _ (text_item_keeps "run_id" state) (passed_keeps step)

  already_paused_keeps :
      (run_id : String) (step : StepName) → Keeps R (already_paused_here run_id step)
  unfolding already_paused_here Trace.latest_for_step
  already_paused_keeps run_id step = search state_rules

  trace_pause_keeps :
      (run_id : String) (step : StepName) (reason : PauseReason) (detail : Call Fields)
      → Keeps R detail
      → Keeps R (trace_pause run_id step reason detail)
  unfolding trace_pause
  trace_pause_keeps run_id step reason detail h =
      search (state_rules, already_paused_keeps) depth 12

  close_span_keeps :
      {A : Type 0} (id : ℕ) (detail : Fields) (r : Result A) → Keeps R (close_span id detail r)
  unfolding close_span
  close_span_keeps id detail (ok a) = search call_rules
  close_span_keeps id detail (err e) = search call_rules depth 9

  step_span_keeps :
      {A : Type 0} (run_id step_name : String) (tool : Option String) (body : Call (Spanned A))
      → Keeps R body
      → Keeps R (step_span run_id step_name tool body)
  unfolding step_span
  step_span_keeps run_id step_name tool body h = search (call_rules, close_span_keeps) depth 9

  planned_keeps : (llm : LlmProvider) (r : Result DeprovisioningPlan) → Keeps R (planned llm r)
  unfolding planned
  planned_keeps llm (ok plan) = search call_rules
  planned_keeps llm (err e) = search call_rules

  after_approval_keeps :
      (run_id : String) (payload : Fields) (o : Option Fields)
      → Keeps R (after_approval run_id payload o)
  unfolding after_approval
  after_approval_keeps run_id payload none = search call_rules
  after_approval_keeps run_id payload (some decision) = search (call_rules, step_span_keeps) depth 9

  after_document_keeps :
      (run_id : String) (payload : Fields) (o : Option Fields)
      → Keeps R (after_document run_id payload o)
  unfolding after_document
  after_document_keeps run_id payload none = search call_rules
  after_document_keeps run_id payload (some event) = search (call_rules, step_span_keeps) depth 9

  sent_document_keeps : (state : Fields) → Keeps R (sent_document state)
  unfolding sent_document
  sent_document_keeps state = search state_rules

  approver_in_keeps : (v : Value) → Keeps R (approver_in v)
  unfolding approver_in
  approver_in_keeps (dict fs) = search call_rules
  approver_in_keeps _ = search call_rules

  approver_of_keeps : (state : Fields) → Keeps R (approver_of state)
  unfolding approver_of
  approver_of_keeps state = approver_in_keeps _

  ruleset node_rules = (
    state_rules, guard_keeps, trace_pause_keeps, step_span_keeps, planned_keeps,
    after_approval_keeps, after_document_keeps, sent_document_keeps, approver_of_keeps,
  )

  module _ (services : Services) (isolated : All IsIsolated services.executor.registry)
      (asks : (employee : Value) → Keeps R (services.llm.generate_plan employee)) where
    executes : (q : Request) → Keeps R (execute services.executor q)
    executes q = execute_keeps foot services.executor isolated q

    fetch_employee_keeps : (state : Fields) → Keeps R (fetch_employee state services)
    unfolding fetch_employee
    fetch_employee_keeps state = search (node_rules, executes) depth 25

    plan_deprovisioning_keeps : (state : Fields) → Keeps R (plan_deprovisioning state services)
    unfolding plan_deprovisioning
    plan_deprovisioning_keeps state = search (node_rules, asks) depth 25

    await_hr_approval_keeps :
        (state : Fields) (o : Option Fields) → Keeps R (await_hr_approval state services o)
    unfolding await_hr_approval
    await_hr_approval_keeps state o = search node_rules depth 25

    revoke_access_keeps : (state : Fields) → Keeps R (revoke_access state services)
    unfolding revoke_access
    revoke_access_keeps state = search (node_rules, executes) depth 25

    send_exit_paperwork_keeps : (state : Fields) → Keeps R (send_exit_paperwork state services)
    unfolding send_exit_paperwork
    send_exit_paperwork_keeps state = search (node_rules, executes) depth 25

    await_signed_document_keeps :
        (state : Fields) (o : Option Fields) → Keeps R (await_signed_document state services o)
    unfolding await_signed_document
    await_signed_document_keeps state o = search node_rules depth 25

    finalize_keeps : (state : Fields) → Keeps R (finalize state services)
    unfolding finalize
    finalize_keeps state = search (node_rules, executes) depth 30

    pub node_keeps :
        (step : StepName) (state : Fields) (o : Option Fields)
        → Keeps R (node step state services o)
    node_keeps StepName.fetch_employee state o = fetch_employee_keeps state
    node_keeps StepName.plan_deprovisioning state o = plan_deprovisioning_keeps state
    node_keeps StepName.await_hr_approval state o = await_hr_approval_keeps state o
    node_keeps StepName.revoke_access state o = revoke_access_keeps state
    node_keeps StepName.send_exit_paperwork state o = send_exit_paperwork_keeps state
    node_keeps StepName.await_signed_document state o = await_signed_document_keeps state o
    node_keeps StepName.finalize state o = finalize_keeps state

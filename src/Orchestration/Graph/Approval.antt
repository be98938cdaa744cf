-- ===== src/Orchestration/Graph/Approval.antt =====
-- The approval in the state of the graph, by the steps of nodes.py.
use package.text.Mathlib.Text.{◌==◌ as str_eq}
use offboarding_orchestrator.Prelude.{
  String, true, false, ◌≡◌, refl, sym, ◌∙◌, ◌⊎◌, inl, inr, Option, none, some, List, ◌∷◌, Listed,
  here, there, Bool-cases, eq_iff, arith, if◌then◌else◌, ℕ, ap, eq_refl,
}
use offboarding_orchestrator.Domain.StepName.{StepName}
use offboarding_orchestrator.Domain.Json.{Value, dict, Fields, end, field, get_field}
use offboarding_orchestrator.Domain.Errors.{Message}
use offboarding_orchestrator.Domain.Result.{ok}
use offboarding_orchestrator.World.{World, Call, pure}
use offboarding_orchestrator.World.Gives.{
  Gives, Gives-pure, Gives-raise, Gives-reraise, Gives-if, Gives-any, Gives-bind, Gives-bind_with,
  Gives-with_result,
}
use offboarding_orchestrator.Persistence.Trace.{start_attempt}
use offboarding_orchestrator.Orchestration.State.{NodeResult, returns, interrupts}
use offboarding_orchestrator.Orchestration.Tracing.{step_span, close_span}
use offboarding_orchestrator.Orchestration.Nodes.{Services}
use offboarding_orchestrator.Orchestration.Nodes.Planning.{fetch_employee, plan_deprovisioning}
use offboarding_orchestrator.Orchestration.Nodes.Pauses.{
  is_approved, decided, after_approval, await_hr_approval, after_document, await_signed_document,
}
use offboarding_orchestrator.Orchestration.Nodes.Effects.{
  revoke_access, send_exit_paperwork, finalize,
}
use offboarding_orchestrator.Orchestration.Graph.{node}
use offboarding_orchestrator.Orchestration.Graph.Progress.{
  set_field, merge, Reaches, begins, completes,
}

-- A step that returns no approval.
abbrev pub Leaves : NodeResult → Type 0
Leaves (returns update events) = get_field "approval" update ≡ none
Leaves (interrupts payload) = Unit

-- A step that returns an approval, and it was given.
abbrev pub Approves : NodeResult → Type 0
Approves (returns update events) =
    (decision : Fields) × (update ≡ field "approval" (dict decision) end)
    × (is_approved decision ≡ true)
Approves (interrupts payload) = Unit

-- The state holds an approval, and it was given.
abbrev pub Approved : Fields → Type 0
Approved state =
    (decision : Fields) × (get_field "approval" state ≡ some (dict decision))
    × (is_approved decision ≡ true)

ruleset step_rules =
    (Gives-pure, Gives-raise, Gives-reraise, Gives-if, Gives-bind, Gives-with_result, refl)

after_document-Leaves :
    (run_id : String) (payload : Fields) (o : Option Fields)
    → Gives Leaves (after_document run_id payload o)
unfolding after_document
after_document-Leaves run_id payload none = Gives-pure _ tt
after_document-Leaves run_id payload (some event) = search step_rules

module _ (services : Services) (state : Fields) where
  fetch_employee-Leaves : Gives Leaves (fetch_employee state services)
  unfolding fetch_employee
  fetch_employee-Leaves = search step_rules depth 15

  plan_deprovisioning-Leaves : Gives Leaves (plan_deprovisioning state services)
  unfolding plan_deprovisioning
  plan_deprovisioning-Leaves = search step_rules depth 15

  revoke_access-Leaves : Gives Leaves (revoke_access state services)
  unfolding revoke_access
  revoke_access-Leaves = search step_rules depth 15

  send_exit_paperwork-Leaves : Gives Leaves (send_exit_paperwork state services)
  unfolding send_exit_paperwork
  send_exit_paperwork-Leaves = search step_rules depth 15

  await_signed_document-Leaves :
      (o : Option Fields) → Gives Leaves (await_signed_document state services o)
  unfolding await_signed_document
  await_signed_document-Leaves o = search (step_rules, after_document-Leaves) depth 15

  finalize-Leaves : Gives Leaves (finalize state services)
  unfolding finalize
  finalize-Leaves = search step_rules depth 20

close_span-approved :
    (id : ℕ) (decision : Fields)
    → Gives
        (λ _. is_approved decision ≡ true)
        (close_span id (decided decision).detail (decided decision).outcome)
unfolding close_span
close_span-approved id decision = elim (Bool-cases (is_approved decision)) [
  | inl given ↦ Gives-any _ λ a. given
  | inr refused ↦ rw refused (search (Gives-bind, Gives-if, Gives-reraise))
]

decision_span :
    (run_id step_name : String) (decision : Fields)
    → Gives
        (λ _. is_approved decision ≡ true)
        (step_span run_id step_name none (pure (decided decision)))
unfolding step_span
decision_span run_id step_name decision =
    Gives-bind (start_attempt run_id step_name none)
      (λ row. close_span row.id (decided decision).detail (decided decision).outcome)
      λ row. close_span-approved row.id decision

after_approval-Approves :
    (run_id : String) (payload : Fields) (o : Option Fields)
    → Gives Approves (after_approval run_id payload o)
unfolding after_approval
after_approval-Approves run_id payload none = Gives-pure _ tt
after_approval-Approves run_id payload (some decision) =
    Gives-bind_with _ _ _ (decision_span run_id _ decision)
      λ a given. Gives-pure _ (decision, refl, given)

await_hr_approval-Approves :
    (services : Services) (state : Fields) (o : Option Fields)
    → Gives Approves (await_hr_approval state services o)
unfolding await_hr_approval
await_hr_approval-Approves services state o = search (step_rules, after_approval-Approves) depth 20

get_field-set_field_same :
    (k : String) (v : Value) (fs : Fields) → get_field k (set_field k v fs) ≡ some v
get_field-set_field_same k v end = rw (eq_refl k) refl
get_field-set_field_same k v (field j u fs) = elim (Bool-cases (str_eq j k)) [
  | inl same ↦ rw (same, same) refl
  | inr other ↦ rw (other, other) (get_field-set_field_same k v fs)
]

get_field-set_field_other :
    (k j : String) (v : Value) (fs : Fields)
    → str_eq j k ≡ false
    → get_field k (set_field j v fs) ≡ get_field k fs
get_field-set_field_other k j v end other = rw other refl
get_field-set_field_other k j v (field i u fs) other = elim (Bool-cases (str_eq i j)) [
  | inl same ↦
      let out : str_eq i k ≡ false = rw (sym ((eq_iff i j).0 same)) at other in rw (same, out) refl
  | inr differs ↦
      rw differs
        (ap (λ o. if str_eq i k then some u else o) (get_field-set_field_other k j v fs other))
]

get_field-merge :
    (k : String) (state update : Fields)
    → get_field k update ≡ none
    → get_field k (merge state update) ≡ get_field k state
get_field-merge k state end h = refl
get_field-merge k state (field j v update) h = elim (Bool-cases (str_eq j k)) [
  | inl same ↦ absurd (ground (arith, same, h))
  | inr other ↦
      get_field-merge k (set_field j v state) update (rw other at h)
      ∙ get_field-set_field_other k j v state other
]

merge-Leaves :
    (state update : Fields) (events : List Message)
    → Leaves (returns update events)
    → Approved state
    → Approved (merge state update)
merge-Leaves state update events h (decision, found, given) =
    (decision, get_field-merge "approval" state update h ∙ found, given)

merge-Approves :
    (state update : Fields) (events : List Message)
    → Approves (returns update events)
    → Approved (merge state update)
merge-Approves state update events (decision, e, given) =
    (decision, rw e (get_field-set_field_same "approval" (dict decision) state), given)

-- The step that asks for the approval is still to run, or the approval is in the state.
abbrev pub IsGated : Fields → List StepName → Type 0
IsGated state left = Listed StepName.await_hr_approval left ⊎ Approved state

module _ (services : Services) (left : List StepName) (state update : Fields)
    (events : List Message) (resumed : Option Fields) (w w' : World) where
  leaving :
      (step : StepName) (m : Call NodeResult)
      → (StepName.await_hr_approval ≡ step → ⊥)
      → Gives Leaves m
      → m w ≡ (ok (returns update events), w')
      → IsGated state (step ∷ left)
      → IsGated (merge state update) left
  leaving step m other gives returned (inl (here e)) = absurd (other e)
  leaving step m other gives returned (inl (there later)) = inl later
  leaving step m other gives returned (inr approved) =
      inr (merge-Leaves state update events (rw returned at (gives.at w)) approved)

  step-IsGated :
      (step : StepName)
      → node step state services resumed w ≡ (ok (returns update events), w')
      → IsGated state (step ∷ left)
      → IsGated (merge state update) left
  step-IsGated StepName.fetch_employee r h =
      leaving StepName.fetch_employee _ (λ e. cc) (fetch_employee-Leaves services state) r h
  step-IsGated StepName.plan_deprovisioning r h =
      leaving StepName.plan_deprovisioning _ (λ e. cc) (plan_deprovisioning-Leaves services state) r
        h
  step-IsGated StepName.await_hr_approval r h = inr (
      merge-Approves state update events
        (rw r at ((await_hr_approval-Approves services state resumed).at w)))
  step-IsGated StepName.revoke_access r h =
      leaving StepName.revoke_access _ (λ e. cc) (revoke_access-Leaves services state) r h
  step-IsGated StepName.send_exit_paperwork r h =
      leaving StepName.send_exit_paperwork _ (λ e. cc) (send_exit_paperwork-Leaves services state) r
        h
  step-IsGated StepName.await_signed_document r h =
      leaving StepName.await_signed_document _ (λ e. cc)
        (await_signed_document-Leaves services state resumed) r h
  step-IsGated StepName.finalize r h =
      leaving StepName.finalize _ (λ e. cc) (finalize-Leaves services state) r h

-- In every checkpoint that a run can reach, the approval is still to come or was given.
pub Reaches-IsGated :
    (services : Services) (state : Fields) (left : List StepName)
    → Reaches services state left
    → IsGated state left
Reaches-IsGated services _ _ (begins run_id employee_id) = inl (there (there (here refl)))
Reaches-IsGated services _ left
      (completes step _ state update events resumed w w' before returned) =
    step-IsGated services left state update events resumed w w' step returned
      (Reaches-IsGated services state (step ∷ left) before)

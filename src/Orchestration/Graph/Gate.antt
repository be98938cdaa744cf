-- ===== src/Orchestration/Graph/Gate.antt =====
-- The steps of the workflow that come after the approval.
use offboarding_orchestrator.Prelude.{
  Bool, true, false, ◌≡◌, refl, sym, inl, inr, List, [], ◌∷◌, Listed, here, there, All, arith,
}
use mathlib.Core.Path.{subst}
use offboarding_orchestrator.Domain.StepName.{StepName}
use offboarding_orchestrator.Domain.Json.{Fields}
use offboarding_orchestrator.Orchestration.Nodes.{Services}
use offboarding_orchestrator.Orchestration.Graph.{workflow}
use offboarding_orchestrator.Orchestration.Graph.Progress.{Reaches, begins, completes}
use offboarding_orchestrator.Orchestration.Graph.Approval.{Approved, Reaches-IsGated}

-- The steps that act on the employee's accounts and papers, and the wait between them.
abbrev pub is_acting : StepName → Bool
is_acting StepName.fetch_employee = false
is_acting StepName.plan_deprovisioning = false
is_acting StepName.await_hr_approval = false
is_acting StepName.revoke_access = true
is_acting StepName.send_exit_paperwork = true
is_acting StepName.await_signed_document = true
is_acting StepName.finalize = true

abbrev tails : List StepName → List (List StepName)
tails [] = [] ∷ []
tails (x ∷ xs) = (x ∷ xs) ∷ tails xs

next_tail :
    (step : StepName) (left xs : List StepName)
    → Listed (step ∷ left) (tails xs)
    → Listed left (tails xs)
next_tail step left [] (here e) = absurd (cc)
next_tail step left [] (there later) = elim later [ ]
next_tail step left (x ∷ []) (here e) = there (here (cc))
next_tail step left (x ∷ (y ∷ xs)) (here e) = there (here (cc))
next_tail step left (x ∷ xs) (there later) = there (next_tail step left xs later)

Reaches-tail :
    (services : Services) (state : Fields) (left : List StepName)
    → Reaches services state left
    → Listed left (tails workflow)
Reaches-tail services _ _ (begins run_id employee_id) = here refl
Reaches-tail services _ left (completes step _ state update events resumed w w' before returned) =
    next_tail step left workflow (Reaches-tail services state (step ∷ left) before)

abbrev AllActing : List StepName → Type 0
AllActing left = All (λ step. is_acting step ≡ true) left

not_gated : (left : List StepName) → AllActing left → Listed StepName.await_hr_approval left → ⊥
not_gated [] all listed = elim listed [ ]
not_gated (x ∷ left) (acts, rest) (here e) =
    let now : is_acting StepName.await_hr_approval ≡ true =
      subst (λ (s : StepName). is_acting s ≡ true) (sym e) acts in
    absurd (ground (arith, now))
not_gated (x ∷ left) (acts, rest) (there later) = not_gated left rest later

-- Once a step acts, so do those that are left.
abbrev Onwards : List StepName → Type 0
Onwards [] = Unit
Onwards (step ∷ left) = is_acting step ≡ true → AllActing (step ∷ left)

workflow-Onwards : All Onwards (tails workflow)
workflow-Onwards = (
  λ h. absurd (ground (arith, h)),
  (
    λ h. absurd (ground (arith, h)),
    (
      λ h. absurd (ground (arith, h)),
      (
        λ h. (refl, (refl, (refl, (refl, tt)))),
        (λ h. (refl, (refl, (refl, tt))), (λ h. (refl, (refl, tt)), (λ h. (refl, tt), (tt, tt)))),
      ),
    ),
  ),
)

Listed-tail :
    (a : List StepName) (xs : List (List StepName)) → All Onwards xs → Listed a xs → Onwards a
Listed-tail a [] h listed = elim listed [ ]
Listed-tail a (x ∷ xs) (h, hs) (here e) = subst Onwards (sym e) h
Listed-tail a (x ∷ xs) (h, hs) (there later) = Listed-tail a xs hs later

acting_tail :
    (step : StepName) (left : List StepName)
    → is_acting step ≡ true
    → Listed (step ∷ left) (tails workflow)
    → AllActing (step ∷ left)
acting_tail step left acts listed =
    Listed-tail (step ∷ left) (tails workflow) workflow-Onwards listed acts

-- In every checkpoint that a run of the workflow can reach, through restarts, resumptions with any
-- values and writes by other processes: when the step to run next is revoke_access or one after
-- it, the state holds an approval that was given.
pub Reaches-Approved :
    (services : Services) (state : Fields) (step : StepName) (left : List StepName)
    → is_acting step ≡ true
    → Reaches services state (step ∷ left)
    → Approved state
Reaches-Approved services state step left acts reached =
    elim (Reaches-IsGated services state (step ∷ left) reached) [
      | inr approved ↦ approved
      | inl gate ↦ absurd (
          not_gated (step ∷ left)
            (acting_tail step left acts (Reaches-tail services state (step ∷ left) reached)) gate)
    ]

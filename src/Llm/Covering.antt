-- ===== src/Llm/Covering.antt =====
-- The plans that the providers of offboarding/llm return.
use offboarding_orchestrator.Prelude.{String, ◌≡◌, refl, List, [], ◌∷◌, map}
use offboarding_orchestrator.Domain.Json.{Value, dict, Fields}
use offboarding_orchestrator.Domain.Errors.{Message, invalid_plan}
use offboarding_orchestrator.Domain.Result.{Result, ok, err}
use offboarding_orchestrator.World.{World}
use offboarding_orchestrator.World.Gives.{Gives, Holds, Gives-bind}
use offboarding_orchestrator.Llm.Provider.{
  ChecklistItem, DeprovisioningPlan, Validation, Payload, proposed, parse_plan, validate_plan,
}
use offboarding_orchestrator.Llm.Plans.{
  HasSystems, systems_of_employee_lem, Covers, Verdict, accepted, refused, validate_plan-Verdict,
}
use offboarding_orchestrator.Llm.Fake.{item_for, plan_for, fake_plan}
use offboarding_orchestrator.Llm.Gemini.{Genai, GeminiLlm, gemini_plan}

module _ (employee : Value) (names : List String) (has : HasSystems employee names) where
  verdict-Covers :
      (plan : DeprovisioningPlan) (w : World) (x : Result DeprovisioningPlan × World)
      → Verdict plan names w x
      → Holds (λ p. Covers p names) x.0
  verdict-Covers plan w _ (accepted h) = h
  verdict-Covers plan w _ (refused m h) = tt

  validate_plan-Covers :
      (plan : DeprovisioningPlan) → Gives (λ p. Covers p names) (validate_plan plan employee)
  validate_plan-Covers plan = record {
    at = λ w. verdict-Covers plan w _ (validate_plan-Verdict plan employee names w has);
  }

  parse_plan-Covers :
      (model_validate : Value → Validation) (payload : Payload)
      → Gives (λ p. Covers p names) (parse_plan model_validate payload employee)
  unfolding parse_plan
  parse_plan-Covers model_validate payload = Gives-bind _ _ validate_plan-Covers

gemini_dict-Covers :
    (genai : Genai) (gemini : GeminiLlm) (fs : Fields) (names : List String)
    → HasSystems (dict fs) names
    → Gives (λ p. Covers p names) (gemini_plan genai gemini (dict fs))
unfolding gemini_plan
gemini_dict-Covers genai gemini fs names has = search (Gives-bind, parse_plan-Covers)

-- Whatever the model answers and whatever pydantic takes for a plan: a plan that the Gemini
-- provider returns for a record that lists its systems has an item and names exactly those
-- systems.
pub gemini_plan-Covers :
    (genai : Genai) (gemini : GeminiLlm) (employee : Value) (names : List String) (w w' : World)
    (plan : DeprovisioningPlan)
    → HasSystems employee names
    → gemini_plan genai gemini employee w ≡ (ok plan, w')
    → Covers plan names
gemini_plan-Covers genai gemini employee names w w' plan (fs, e, found) returned =
    let from_record : gemini_plan genai gemini (dict fs) w ≡ (ok plan, w') = rw (← e) returned in
    rw from_record at ((gemini_dict-Covers genai gemini fs names (fs, refl, found)).at w)

map-items :
    (names : List String) → map (λ (i : ChecklistItem). i.system) (map item_for names) ≡ names
map-items [] = refl
map-items (s ∷ names) = rw (map-items names) refl

-- The plan that is built from the record.
abbrev pub Fakes : (Message → String) → Value → List String → World → Type 0
Fakes format employee [] w =
    (m : Message) × (fake_plan format employee w
      ≡ (err (record { class = invalid_plan; message = m }), w))
Fakes format employee (s ∷ names) w =
    (plan : DeprovisioningPlan) × (fake_plan format employee w ≡ (ok plan, w))
    × (proposed plan ≡ s ∷ names)

fake_verdict :
    (format : Message → String) (fs : Fields) (names : List String) (w : World)
    → HasSystems (dict fs) names
    → fake_plan format (dict fs) w ≡ validate_plan (plan_for format names fs) (dict fs) w
unfolding fake_plan
fake_verdict format fs names w has = rw (systems_of_employee_lem (dict fs) names w has) refl

fake_dict-Fakes :
    (format : Message → String) (fs : Fields) (names : List String) (w : World)
    (x : Result DeprovisioningPlan × World)
    → fake_plan format (dict fs) w ≡ x
    → Verdict (plan_for format names fs) names w x
    → Fakes format (dict fs) names w
fake_dict-Fakes format fs [] w _ made (accepted h) = absurd (h.0 refl)
fake_dict-Fakes format fs [] w _ made (refused m h) = (m, made)
fake_dict-Fakes format fs (s ∷ names) w _ made (accepted h) =
    (plan_for format (s ∷ names) fs, made, map-items (s ∷ names))
fake_dict-Fakes format fs (s ∷ names) w _ made (refused m h) =
    absurd (h (λ e. cc, rw (map-items (s ∷ names)) (λ t listed. listed, λ t listed. listed)))

-- For a record that lists its systems, the fake provider returns a plan with one item for each
-- system, in the record's order, without a change of state; when it lists none, it raises
-- InvalidPlan.
pub fake_plan-Fakes :
    (format : Message → String) (employee : Value) (names : List String) (w : World)
    → HasSystems employee names
    → Fakes format employee names w
fake_plan-Fakes format employee names w (fs, e, found) =
    let made = fake_verdict format fs names w (fs, refl, found) in
    rw e (
      fake_dict-Fakes format fs names w _ made
        (validate_plan-Verdict (plan_for format names fs) (dict fs) names w (fs, refl, found)))

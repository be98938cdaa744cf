-- ===== src/Llm/Plans.antt =====
-- validate_plan of llm/provider.py, against the systems of the employee.
use package.text.Mathlib.Text.{◌==◌ as str_eq}
use offboarding_orchestrator.Prelude.{
  String, true, false, ◌≡◌, refl, sym, ◌≢◌, inl, inr, some, List, [], ◌∷◌, Listed, here, there,
  Bool-cases, any_sound, any_complete, eq_iff, arith,
}
use mathlib.Core.Path.{subst}
use offboarding_orchestrator.Domain.Json.{
  Value, str, list, dict, Items, nil, cons, Fields, get_field,
}
use offboarding_orchestrator.Domain.Errors.{Message, invalid_plan}
use offboarding_orchestrator.Domain.Result.{Result, ok, err}
use offboarding_orchestrator.World.{World}
use offboarding_orchestrator.Tools.Arguments.{to_list}
use offboarding_orchestrator.Llm.Provider.{
  DeprovisioningPlan, texts, systems_or_none, systems_of_employee, proposed, is_among, minus,
  is_empty, check_plan, validate_plan,
}

abbrev pub systems_list : List String → Items
systems_list [] = nil
systems_list (s ∷ names) = cons (str s) (systems_list names)

-- The employee's record lists the systems.
abbrev pub HasSystems : Value → List String → Type 0
HasSystems employee names =
    (fs : Fields) × (employee ≡ dict fs)
    × (get_field "systems" fs ≡ some (list (systems_list names)))

texts_lem : (names : List String) (w : World) → texts (systems_list names) w ≡ (ok names, w)
unfolding texts
texts_lem [] w = refl
texts_lem (s ∷ names) w = rw (texts_lem names w) refl

pub systems_of_employee_lem :
    (employee : Value) (names : List String) (w : World)
    → HasSystems employee names
    → systems_of_employee employee w ≡ (ok names, w)
unfolding systems_of_employee systems_or_none to_list
systems_of_employee_lem employee names w (fs, e, found) = rw (e, found, texts_lem names w) refl

-- The same systems, in any order and number.
abbrev pub Same : List String → List String → Type 0
Same xs ys = ((s : String) → Listed s xs → Listed s ys) × ((s : String) → Listed s ys → Listed s xs)

is_among_sound : (names : List String) (s : String) → is_among names s ≡ true → Listed s names
is_among_sound names s h =
    let (a, listed, same) = any_sound (str_eq s) names h in
    subst (λ (x : String). Listed x names) (sym ((eq_iff s a).0 same)) listed

is_among_complete : (names : List String) (s : String) → Listed s names → is_among names s ≡ true
is_among_complete names s listed = any_complete (str_eq s) s listed ((eq_iff s s).1 refl)

minus_empty :
    (xs ys : List String) → is_empty (minus xs ys) ≡ true → (s : String) → Listed s xs → Listed s ys
minus_empty [] ys h s listed = elim listed [ ]
minus_empty (x ∷ xs) ys h s listed = elim (Bool-cases (is_among ys x)) [
  | inr out ↦ absurd (ground (arith, out, h))
  | inl among ↦ in_tail listed (minus_empty xs ys (rw among at h) s) among
]
  where
    in_tail : Listed s (x ∷ xs) → (Listed s xs → Listed s ys) → is_among ys x ≡ true → Listed s ys
    in_tail (here e) rest among =
        subst (λ (y : String). Listed y ys) (sym e) (is_among_sound ys x among)
    in_tail (there later) rest among = rest later

minus_left :
    (xs ys : List String)
    → is_empty (minus xs ys) ≡ false
    → (s : String) × Listed s xs × (Listed s ys → ⊥)
minus_left [] ys h = absurd (ground (arith, h))
minus_left (x ∷ xs) ys h = elim (Bool-cases (is_among ys x)) [
  | inr out ↦ (x, here refl, λ listed. ground (arith, out, is_among_complete ys x listed))
  | inl among ↦ let (s, listed, out) = minus_left xs ys (rw among at h) in (s, there listed, out)
]

-- What makes a plan one for the systems.
abbrev pub Covers : DeprovisioningPlan → List String → Type 0
Covers plan names = (plan.items ≢ []) × Same (proposed plan) names

-- The plan was returned and covers the systems, or InvalidPlan was raised and it does not.
pub data Verdict (plan : DeprovisioningPlan) (names : List String) (w : World)
    : Result DeprovisioningPlan × World → Type 0 where
  accepted : Covers plan names → Verdict plan names w (ok plan, w)
  refused :
      (m : Message)
      → (Covers plan names → ⊥)
      → Verdict plan names w (err (record { class = invalid_plan; message = m }), w)

is_empty_sound : {A : Type 0} (xs : List A) → is_empty xs ≡ true → xs ≡ []
is_empty_sound [] h = refl
is_empty_sound (x ∷ xs) h = absurd (ground (arith, h))

is_empty_complete : {A : Type 0} (xs : List A) → is_empty xs ≡ false → xs ≢ []
is_empty_complete [] h e = ground (arith, h)
is_empty_complete (x ∷ xs) h e = cc

check_plan_lem :
    (plan : DeprovisioningPlan) (names : List String) (w : World)
    → Verdict plan names w (check_plan plan names w)
unfolding check_plan
check_plan_lem plan names w = elim (Bool-cases (is_empty plan.items)) [
  | inl none_at_all ↦
      rw none_at_all (Verdict.refused _ λ c. c.0 (is_empty_sound plan.items none_at_all))
  | inr some_at_all ↦ elim (Bool-cases (is_empty (minus (proposed plan) names))) [
    | inr invented ↦
        let (s, listed, out) = minus_left (proposed plan) names invented in
        rw (some_at_all, invented) (Verdict.refused _ λ c. out (c.1.0 s listed))
    | inl sound ↦ elim (Bool-cases (is_empty (minus names (proposed plan)))) [
      | inr missed ↦
          let (s, listed, out) = minus_left names (proposed plan) missed in
          rw (some_at_all, sound, missed) (Verdict.refused _ λ c. out (c.1.1 s listed))
      | inl complete ↦
          rw (some_at_all, sound, complete)
            (Verdict.accepted (
              is_empty_complete plan.items some_at_all,
              (minus_empty (proposed plan) names sound, minus_empty names (proposed plan) complete),
            ))
    ]
  ]
]

-- For a record that lists its systems: validate_plan returns the plan when it has an item and
-- names exactly the systems of the record, raises InvalidPlan when it does not, and changes
-- nothing either way.
pub validate_plan-Verdict :
    (plan : DeprovisioningPlan) (employee : Value) (names : List String) (w : World)
    → HasSystems employee names
    → Verdict plan names w (validate_plan plan employee w)
unfolding validate_plan
validate_plan-Verdict plan employee names w has =
    rw (systems_of_employee_lem employee names w has) (check_plan_lem plan names w)

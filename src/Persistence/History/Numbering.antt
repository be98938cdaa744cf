-- ===== src/Persistence/History/Numbering.antt =====
-- The numbers of attempts, and the ids of their rows.
use offboarding_orchestrator.Prelude.{
  ℕ, suc, ◌≤◌, String, Bool, true, ◌≡◌, refl, Option, none, some, List, [], ◌∷◌, All, length,
  select, update, arith, eq_iff, Bool-cases, if◌then◌else◌, ap, inl, inr, ◌∙◌, sym,
}
use offboarding_orchestrator.Domain.Models.{StepAttempt}
use offboarding_orchestrator.Persistence.Trace.{is_at_step, highest, higher}
use offboarding_orchestrator.Persistence.Trace.Attempts.{next_number}

-- The attempts at each step of each run are numbered 1, 2, 3, … in the order of insertion.
abbrev pub IsNumbered : List StepAttempt → Type 0
IsNumbered [] = Unit
IsNumbered (r ∷ rows) =
    (r.attempt ≡ suc (length (select (is_at_step r.run_id r.step_name) rows))) × IsNumbered rows

abbrev pub count_at : String → String → List StepAttempt → ℕ
count_at run_id step_name rows = length (select (is_at_step run_id step_name) rows)

-- At a row of the step, counting by the row's own run and step is counting by the step's.
own_step :
    (run_id step_name : String) (r : StepAttempt) (rows : List StepAttempt)
    → is_at_step run_id step_name r ≡ true
    → count_at r.run_id r.step_name rows ≡ count_at run_id step_name rows
own_step run_id step_name r rows h =
    let e : r.run_id ≡ run_id = (eq_iff r.run_id run_id).0 (ground arith) in
    let f : r.step_name ≡ step_name = (eq_iff r.step_name step_name).0 (ground arith) in
    rw (e, f) refl

next_number-higher :
    (r : StepAttempt) (o : Option StepAttempt)
    → r.attempt ≡ next_number o
    → next_number (higher r o) ≡ suc r.attempt
next_number-higher r none h = omega arith
next_number-higher r (some s) h = ground arith

-- In a numbered table the next number is one more than the number of attempts so far.
pub next_number_lem :
    (run_id step_name : String) (rows : List StepAttempt)
    → IsNumbered rows
    → next_number (highest (select (is_at_step run_id step_name) rows))
      ≡ suc (count_at run_id step_name rows)
next_number_lem run_id step_name [] v = refl
next_number_lem run_id step_name (r ∷ rows) v = elim (Bool-cases (is_at_step run_id step_name r)) [
  | inl hit ↦
      let here : r.attempt ≡ suc (count_at run_id step_name rows) =
        v.0 ∙ ap suc (own_step run_id step_name r rows hit) in
      rw hit (
        next_number-higher r (highest (select (is_at_step run_id step_name) rows))
          (here ∙ sym (next_number_lem run_id step_name rows v.1))
        ∙ ap suc here)
  | inr miss ↦ rw miss (next_number_lem run_id step_name rows v.1)
]

-- An UPDATE that leaves the run, the step and the number alone keeps a table numbered.
module _ (p : StepAttempt → Bool) (f : StepAttempt → StepAttempt)
    (same_run : (r : StepAttempt) → (f r).run_id ≡ r.run_id)
    (same_step : (r : StepAttempt) → (f r).step_name ≡ r.step_name)
    (same_number : (r : StepAttempt) → (f r).attempt ≡ r.attempt)
    (same_id : (r : StepAttempt) → (f r).id ≡ r.id) where
  same_step_test :
      (run_id step_name : String) (r : StepAttempt)
      → is_at_step run_id step_name (if p r then f r else r) ≡ is_at_step run_id step_name r
  same_step_test run_id step_name r = ground (arith, same_run r, same_step r)

  count_at-update :
      (run_id step_name : String) (rows : List StepAttempt)
      → count_at run_id step_name (update p f rows) ≡ count_at run_id step_name rows
  count_at-update run_id step_name [] = refl
  count_at-update run_id step_name (r ∷ rows) =
      ground (arith, same_step_test run_id step_name r, count_at-update run_id step_name rows)

  pub update-IsNumbered : (rows : List StepAttempt) → IsNumbered rows → IsNumbered (update p f rows)
  update-IsNumbered [] v = tt
  update-IsNumbered (r ∷ rows) v = (
    elim (Bool-cases (p r)) [
      | inl hit ↦
          rw
            (hit, same_number r, same_run r, same_step r, count_at-update r.run_id r.step_name rows)
            v.0
      | inr miss ↦ rw (miss, count_at-update r.run_id r.step_name rows) v.0
    ],
    update-IsNumbered rows v.1,
  )

  pub update-All :
      (n : ℕ) (rows : List StepAttempt)
      → All (λ (r : StepAttempt). r.id ≤ n) rows
      → All (λ (r : StepAttempt). r.id ≤ n) (update p f rows)
  update-All n [] v = tt
  update-All n (r ∷ rows) v = (ground (arith, same_id r), update-All n rows v.1)

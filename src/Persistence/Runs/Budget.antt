-- ===== src/Persistence/Runs/Budget.antt =====
-- The counters of persistence/runs.py against their limits.
use mathlib.Core.Path.{subst}
use offboarding_orchestrator.Prelude.{
  ℕ, ◌≤◌, ◌<◌, String, Bool, true, ◌≡◌, refl, Option, none, some, ◌∷◌, any, arith, inl, inr,
  Bool-cases, Option-cases, select_one, select_one_sound, select_one-update, update, updated,
  eq_iff,
}
use offboarding_orchestrator.Domain.RunStatus.{RunStatus}
use offboarding_orchestrator.Domain.PauseReason.{PauseReason}
use offboarding_orchestrator.Domain.FailureReason.{FailureReason}
use offboarding_orchestrator.Domain.Errors.{Message}
use offboarding_orchestrator.Domain.Run.{may_move}
use offboarding_orchestrator.Domain.Models.{Run}
use offboarding_orchestrator.World.{Db, World, now}
use offboarding_orchestrator.World.Keeps.{Keeps, IsPreorder, Keeps-bind, Keeps-now, Keeps-immediate}
use offboarding_orchestrator.Persistence.Runs.{
  has_run_id, get, clashes, insert_run, create, update_run, set_status, with_cancel, request_cancel,
  with_counts, bump_counters,
}
use offboarding_orchestrator.Persistence.Runs.Status.{
  find, get-state, moved, moved_world, set_status_missing, set_status_illegal, set_status_legal,
}

-- A run has used no more than its limits.
abbrev pub IsWithin : Run → Type 0
IsWithin r = (r.step_count ≤ r.max_steps) × (r.tool_call_count ≤ r.max_tool_calls)

abbrev pub AllWithin : Option Run → Type 0
AllWithin none = Unit
AllWithin (some r) = IsWithin r

-- Every run that can be read.
pub record InBudget (db : Db) : Type 0 where
  pub runs : (run_id : String) → AllWithin (select_one (has_run_id run_id) db.runs)

pub record Bounded (a b : Db) : Type 0 where
  pub after : InBudget a → InBudget b

pub Bounded-preorder : IsPreorder Bounded
Bounded-preorder = record {
  stay = λ a. record { after = λ h. h };
  chain = λ a b c h k. record { after = λ v. k.after (h.after v) };
}

pub same_runs-Bounded : (a b : Db) → a.runs ≡ b.runs → Bounded a b
same_runs-Bounded a b same = record { after = λ v. record { runs = λ k. rw (← same) (v.runs k) } }

updated-AllWithin :
    (p : Run → Bool) (f : Run → Run) (o : Option Run)
    → ((r : Run) → o ≡ some r → p r ≡ true → IsWithin r → IsWithin (f r))
    → AllWithin o
    → AllWithin (updated p f o)
updated-AllWithin p f none step h = tt
updated-AllWithin p f (some r) step h = elim (Bool-cases (p r)) [
  | inl hit ↦ rw hit (step r refl hit h)
  | inr miss ↦ rw miss h
]

pub update-Bounded :
    (run_id : String) (f : Run → Run) (a b : Db)
    → b.runs ≡ update (has_run_id run_id) f a.runs
    → ((k : String) (r : Run) → has_run_id k (f r) ≡ has_run_id k r)
    → ((r : Run) → select_one (has_run_id run_id) a.runs ≡ some r → IsWithin r → IsWithin (f r))
    → Bounded a b
update-Bounded run_id f a b written keep step = record {
  after = λ v. record {
    runs = λ k.
        rw (written, select_one-update (has_run_id k) (has_run_id run_id) f a.runs (keep k))
          (updated-AllWithin (has_run_id run_id) f (select_one (has_run_id k) a.runs)
            (λ r found hit h.
              step r
                (subst (λ (j : String). select_one (has_run_id j) a.runs ≡ some r)
                  (ground (
                    arith,
                    hit,
                    select_one_sound (has_run_id k) a.runs found,
                    eq_iff r.run_id k,
                    eq_iff r.run_id run_id,
                  ))
                  found)
                h)
            (v.runs k));
  };
}

pub set_status-Bounded :
    (run_id : String) (target : RunStatus) (p : Option PauseReason) (f : Option FailureReason)
    (d : Option Message)
    → Keeps Bounded (set_status run_id target p f d)
set_status-Bounded run_id target p f d = record {
  at = λ w. elim (Option-cases (find run_id w)) [
    | inl e ↦ rw (set_status_missing run_id target p f d w e) (Bounded-preorder.stay w.db)
    | inr (r, e) ↦ elim (Bool-cases (may_move r.status target)) [
      | inl legal ↦ rw (set_status_legal run_id target p f d w r e legal) (
          update-Bounded run_id (moved run_id target p f d w) w.db
            (moved_world run_id target p f d w).db refl (λ k a. refl) (λ a found h. h))
      | inr illegal ↦
          rw (set_status_illegal run_id target p f d w r e illegal) (Bounded-preorder.stay w.db)
    ]
  ];
}

get-Bounded : (run_id : String) → Keeps Bounded (get run_id)
get-Bounded run_id = record { at = λ w. rw (get-state run_id w) (Bounded-preorder.stay w.db) }

flagged-Bounded : (run_id : String) (ts : ℕ) → Keeps Bounded (update_run run_id (with_cancel ts))
flagged-Bounded run_id ts = record {
  at = λ w. update-Bounded run_id (with_cancel ts) w.db _ refl (λ k a. refl) (λ a found h. h);
}

insert_run-Bounded : (new : Run) → IsWithin new → Keeps Bounded (insert_run new)
unfolding insert_run
insert_run-Bounded new within = record {
  at = λ w. elim (Bool-cases (any (clashes new) w.db.runs)) [
    | inl clash ↦ rw clash (Bounded-preorder.stay w.db)
    | inr fresh ↦ rw fresh (record { after = λ v. record { runs = λ k. inserted k w v } })
  ];
}
  where
    inserted :
        (k : String) (w : World)
        → InBudget w.db
        → AllWithin (select_one (has_run_id k) (new ∷ w.db.runs))
    inserted k w v = elim (Bool-cases (has_run_id k new)) [
      | inl own ↦ rw own within
      | inr other ↦ rw other (v.runs k)
    ]

ruleset run_rules =
    (Keeps-bind, Keeps-now, Keeps-immediate, Bounded-preorder, get-Bounded, flagged-Bounded)

pub request_cancel-Bounded : (run_id : String) → Keeps Bounded (request_cancel run_id)
unfolding request_cancel
request_cancel-Bounded run_id = search run_rules depth 9

pub create-Bounded :
    (employee_id : String) (run_id : Option String) (max_steps max_tool_calls : ℕ) (hex : String)
    → Keeps Bounded (create employee_id run_id max_steps max_tool_calls hex)
unfolding create
create-Bounded employee_id run_id max_steps max_tool_calls hex =
    Keeps-bind Bounded-preorder _ _ (Keeps-now Bounded-preorder) λ ts.
      Keeps-bind Bounded-preorder _ _ (insert_run-Bounded _ (omega arith, omega arith))
        λ _. get-Bounded _

-- The runs after a raise of the counters.
pub bump_counters-runs :
    (run_id : String) (steps calls : ℕ) (w : World)
    → (bump_counters run_id steps calls w).1.db.runs
      ≡ update (has_run_id run_id) (with_counts steps calls (w.readings w.reads)) w.db.runs
unfolding bump_counters now
bump_counters-runs run_id steps calls w = rw (get-state run_id _) refl

pub bump_call-Bounded :
    (run_id : String) (w : World) (r : Run)
    → find run_id w ≡ some r
    → r.tool_call_count < r.max_tool_calls
    → Bounded w.db (bump_counters run_id 0 1 w).1.db
bump_call-Bounded run_id w r found more =
    update-Bounded run_id (with_counts 0 1 (w.readings w.reads)) w.db _
      (bump_counters-runs run_id 0 1 w) (λ k a. refl)
      (λ a here h. ground (arith, more, found, here, h))

pub bump_step-Bounded :
    (run_id : String) (w : World) (r : Run)
    → find run_id w ≡ some r
    → r.step_count < r.max_steps
    → Bounded w.db (bump_counters run_id 1 0 w).1.db
bump_step-Bounded run_id w r found more =
    update-Bounded run_id (with_counts 1 0 (w.readings w.reads)) w.db _
      (bump_counters-runs run_id 1 0 w) (λ k a. refl)
      (λ a here h. ground (arith, more, found, here, h))

-- ===== src/Persistence/History/Runs.antt =====
-- The operations of RunRepository and the history of the database.
use offboarding_orchestrator.Prelude.{
  ℕ, String, true, false, ◌≡◌, refl, sym, ◌∙◌, inl, inr, Option, some, List, ◌∷◌, any, select_one,
  update, Later, update-Later, insert-Later, arith, eq_iff, Bool-cases, Option-cases,
  select_one_sound, select_one-not_any,
}
use offboarding_orchestrator.Domain.RunStatus.{RunStatus}
use offboarding_orchestrator.Domain.PauseReason.{PauseReason}
use offboarding_orchestrator.Domain.FailureReason.{FailureReason}
use offboarding_orchestrator.Domain.Errors.{Message}
use offboarding_orchestrator.Domain.Run.{may_move}
use offboarding_orchestrator.Domain.Models.{Run}
use offboarding_orchestrator.World.{Db, World}
use offboarding_orchestrator.World.Keeps.{
  Keeps, Keeps-bind, Keeps-immediate, Keeps-now, Keeps-gets, Keeps-raise, Keeps-pure, Keeps-if,
}
use offboarding_orchestrator.Persistence.Runs.{
  has_run_id, get, update_run, clashes, insert_run, create, set_status, request_cancel,
  bump_counters, with_cancel, with_counts,
}
use offboarding_orchestrator.Persistence.Runs.Status.{
  find, get-state, moved, moved_world, set_status_missing, set_status_illegal, set_status_legal,
}
use offboarding_orchestrator.Persistence.History.{
  kept_flag, RunPath, RunLater, History, RunLater-refl, History-refl, History-preorder,
  Extends-refl,
}

-- A change of the table of runs alone.
runs-History :
    (a : Db) (rows : List Run)
    → ((k : String)
        → Later RunLater (select_one (has_run_id k) a.runs) (select_one (has_run_id k) rows))
    → History a (record a { runs = rows })
runs-History a rows h = record {
  after = λ v. (
    record { counted = v.counted; numbered = v.numbered },
    record {
      runs = h;
      attempts = (Extends-refl a).attempts;
      effects = (Extends-refl a).effects;
      applied = (Extends-refl a).applied;
    },
  );
}

update_run-History :
    (run_id : String) (f : Run → Run)
    → ((r : Run) → (f r).run_id ≡ r.run_id)
    → ((r : Run) → RunLater r (f r))
    → Keeps History (update_run run_id f)
update_run-History run_id f same later = record {
  at = λ w. runs-History w.db (update (has_run_id run_id) f w.db.runs) λ k.
      update-Later RunLater RunLater-refl (has_run_id k) (has_run_id run_id) f w.db.runs
        (λ a. rw (same a)) (λ a found hit. later a);
}

pub get-History : (run_id : String) → Keeps History (get run_id)
get-History run_id = record { at = λ w. rw get-state (History-refl w.db) }

-- The one row that the transition was checked against is the row that is written.
moved_world-History :
    (run_id : String) (target : RunStatus) (p : Option PauseReason) (f : Option FailureReason)
    (d : Option Message) (w : World) (r : Run)
    → find run_id w ≡ some r
    → may_move r.status target ≡ true
    → History w.db (moved_world run_id target p f d w).db
moved_world-History run_id target p f d w r e legal =
    runs-History w.db (moved_world run_id target p f d w).db.runs λ k.
      update-Later RunLater RunLater-refl (has_run_id k) (has_run_id run_id)
        (moved run_id target p f d w) w.db.runs (λ a. refl)
        (λ a found hit. moved_later k a found hit)
  where
    moved_later :
        (k : String) (a : Run)
        → select_one (has_run_id k) w.db.runs ≡ some a
        → has_run_id run_id a ≡ true
        → RunLater a (moved run_id target p f d w a)
    moved_later k a found hit =
        let k_is_id : k ≡ run_id =
          sym ((eq_iff a.run_id k).0 (select_one_sound (has_run_id k) w.db.runs found))
          ∙ (eq_iff a.run_id run_id).0 hit in
        let a_is_r : some a ≡ some r = sym found ∙ (rw k_is_id e) in
        record {
          thread = refl;
          employee = refl;
          created = refl;
          step_limit = refl;
          call_limit = refl;
          steps = omega arith;
          calls = omega arith;
          cancel = kept_flag a.cancel_requested;
          status = RunPath.move RunPath.at_start target (ground arith);
        }

pub set_status-History :
    (run_id : String) (target : RunStatus) (p : Option PauseReason) (f : Option FailureReason)
    (d : Option Message)
    → Keeps History (set_status run_id target p f d)
set_status-History run_id target p f d = record {
  at = λ w. elim (Option-cases (find run_id w)) [
    | inl e ↦ rw (set_status_missing run_id target p f d w e) (History-refl w.db)
    | inr (r, e) ↦ elim (Bool-cases (may_move r.status target)) [
      | inl legal ↦
          rw (set_status_legal run_id target p f d w r e legal)
            (moved_world-History run_id target p f d w r e legal)
      | inr illegal ↦ rw (set_status_illegal run_id target p f d w r e illegal) (History-refl w.db)
    ]
  ];
}

with_cancel_later : (ts : ℕ) (r : Run) → RunLater r (with_cancel ts r)
with_cancel_later ts r = record {
  thread = refl;
  employee = refl;
  created = refl;
  step_limit = refl;
  call_limit = refl;
  steps = omega arith;
  calls = omega arith;
  cancel = inr refl;
  status = RunPath.at_start;
}

with_counts_later : (s c ts : ℕ) (r : Run) → RunLater r (with_counts s c ts r)
with_counts_later s c ts r = record {
  thread = refl;
  employee = refl;
  created = refl;
  step_limit = refl;
  call_limit = refl;
  steps = omega arith;
  calls = omega arith;
  cancel = kept_flag r.cancel_requested;
  status = RunPath.at_start;
}

with_cancel-History :
    (run_id : String) (ts : ℕ) → Keeps History (update_run run_id (with_cancel ts))
with_cancel-History run_id ts =
    update_run-History run_id (with_cancel ts) (λ r. refl) (with_cancel_later ts)

with_counts-History :
    (run_id : String) (s c ts : ℕ) → Keeps History (update_run run_id (with_counts s c ts))
with_counts-History run_id s c ts =
    update_run-History run_id (with_counts s c ts) (λ r. refl) (with_counts_later s c ts)

ruleset call_rules = (
  Keeps-bind, Keeps-immediate, Keeps-now, Keeps-gets, Keeps-raise, Keeps-pure, Keeps-if,
  History-preorder, get-History, with_cancel-History, with_counts-History,
)

pub request_cancel-History : (run_id : String) → Keeps History (request_cancel run_id)
unfolding request_cancel
request_cancel-History run_id = search call_rules depth 9

pub bump_counters-History :
    (run_id : String) (steps calls : ℕ) → Keeps History (bump_counters run_id steps calls)
unfolding bump_counters
bump_counters-History run_id steps calls = search call_rules

unused_id :
    (new : Run) (k : String) (a : Run) (w : World)
    → select_one (has_run_id k) w.db.runs ≡ some a
    → any (clashes new) w.db.runs ≡ false
    → has_run_id k new ≡ false
unused_id new k a w found fresh = ground (
  arith,
  select_one_sound (has_run_id k) w.db.runs found,
  select_one-not_any (has_run_id k) (clashes new) w.db.runs found fresh,
  eq_iff a.run_id k,
  eq_iff a.run_id new.run_id,
  eq_iff new.run_id k,
)

insert_run-History : (new : Run) → Keeps History (insert_run new)
unfolding insert_run
insert_run-History new = record {
  at = λ w. elim (Bool-cases (any (clashes new) w.db.runs)) [
    | inl clash ↦ rw clash (History-refl w.db)
    | inr fresh ↦ rw fresh (
        runs-History w.db (new ∷ w.db.runs) λ k.
          insert-Later RunLater RunLater-refl (has_run_id k) new w.db.runs
            (λ a found. unused_id new k a w found fresh))
  ];
}

pub create-History :
    (employee_id : String) (run_id : Option String) (max_steps max_tool_calls : ℕ) (hex : String)
    → Keeps History (create employee_id run_id max_steps max_tool_calls hex)
unfolding create
create-History employee_id run_id max_steps max_tool_calls hex =
    search (call_rules, insert_run-History) depth 9

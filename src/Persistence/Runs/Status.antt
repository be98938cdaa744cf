-- ===== src/Persistence/Runs/Status.antt =====
-- RunRepository.set_status, on every branch.
use package.text.Mathlib.Text.{◌==◌ as str_eq}
use mathlib.Core.Path.{subst}
use offboarding_orchestrator.Prelude.{
  String, true, false, ◌≡◌, refl, inl, inr, Option, none, some, arith, Bool-cases, Option-cases,
  select_one, update, coalesce, updated, select_one-update, select_one_sound, eq_iff, suc,
  if◌then◌else◌,
}
use offboarding_orchestrator.Domain.RunStatus.{RunStatus}
use offboarding_orchestrator.Domain.PauseReason.{PauseReason}
use offboarding_orchestrator.Domain.FailureReason.{FailureReason}
use offboarding_orchestrator.Domain.Errors.{Message, is_instance}
use offboarding_orchestrator.Domain.Result.{Result, ok, err}
use offboarding_orchestrator.Domain.Run.{transition_run, may_move, illegal_run_transition}
use offboarding_orchestrator.Domain.Models.{Run}
use offboarding_orchestrator.World.{World, now, immediate}
use offboarding_orchestrator.Persistence.Runs.{has_run_id, or_not_found, no_run, get, set_status}

-- The row that a run's reads find.
abbrev pub find : String → World → Option Run
find run_id w = select_one (has_run_id run_id) w.db.runs

-- Reading a run writes nothing.
pub get-state : (run_id : String) (w : World) → (get run_id w).1 ≡ w
unfolding get
get-state run_id w = go (find run_id w)
  where
    go : (o : Option Run) → (or_not_found run_id o w).1 ≡ w
    go none = refl
    go (some r) = refl

module _ (run_id : String) (target : RunStatus) (p : Option PauseReason) (f : Option FailureReason)
    (d : Option Message) (w : World) where
  -- The row as `set_status` leaves it.
  abbrev pub moved : Run → Run
  moved r = record r {
    status = target;
    pause_reason = p;
    failure_reason = coalesce f r.failure_reason;
    failure_detail = coalesce d r.failure_detail;
    updated_at = w.readings w.reads;
  }

  abbrev pub moved_world : World
  moved_world = record w {
    db = record w.db { runs = update (has_run_id run_id) moved w.db.runs };
    reads = suc w.reads;
  }

  pub find-moved_world :
      (j : String) {r : Run}
      → find j w ≡ some r
      → find j moved_world ≡ some (if has_run_id run_id r then moved r else r)
  find-moved_world j {r} e =
      rw (select_one-update (has_run_id j) (has_run_id run_id) moved w.db.runs (λ a. refl), e) refl

  pub find-moved_world_self :
      {r : Run} → find run_id w ≡ some r → find run_id moved_world ≡ some (moved r)
  find-moved_world_self {r} e =
      rw (find-moved_world run_id e, select_one_sound (has_run_id run_id) w.db.runs e) refl

  pub set_status_missing :
      find run_id w ≡ none → set_status run_id target p f d w ≡ (err (no_run run_id), w)
  unfolding set_status immediate get is_instance
  set_status_missing e = rw e refl

  pub set_status_illegal :
      (r : Run)
      → find run_id w ≡ some r
      → may_move r.status target ≡ false
      → set_status run_id target p f d w ≡ (err (illegal_run_transition r.status target), w)
  unfolding set_status immediate get transition_run is_instance
  set_status_illegal r found illegal = rw (found, illegal) refl

  pub set_status_legal :
      (r : Run)
      → find run_id w ≡ some r
      → may_move r.status target ≡ true
      → set_status run_id target p f d w ≡ (ok (moved r), moved_world)
  unfolding set_status immediate get transition_run now is_instance
  set_status_legal r found legal = rw (found, legal, find-moved_world_self found) refl

-- What `set_status` has done, by how it ended.
abbrev pub Moves : String → RunStatus → World → Result Run × World → Type 0
Moves run_id target w (err e, w') = w' ≡ w
Moves run_id target w (ok r', w') =
    (r : Run) × (find run_id w ≡ some r)
    × (may_move r.status target ≡ true)
    × (find run_id w' ≡ some r')
    × (r'.status ≡ target)
    × ((j : String) → find j w' ≡ (if str_eq run_id j then some r' else find j w))

find-moved_world_ne :
    (run_id : String) (target : RunStatus) (p : Option PauseReason) (f : Option FailureReason)
    (d : Option Message) (w : World) (j : String)
    → str_eq run_id j ≡ false
    → find j (moved_world run_id target p f d w) ≡ find j w
find-moved_world_ne run_id target p f d w j ne =
    rw
      (select_one-update (has_run_id j) (has_run_id run_id) (moved run_id target p f d w) w.db.runs
        (λ a. refl))
      (other_row (find j w) refl)
  where
    other_row :
        (o : Option Run)
        → find j w ≡ o
        → updated (has_run_id run_id) (moved run_id target p f d w) o ≡ o
    other_row none e = refl
    other_row (some a) e = ground (
      arith,
      select_one_sound (has_run_id j) w.db.runs e,
      eq_iff a.run_id j,
      eq_iff a.run_id run_id,
      eq_iff run_id j,
    )

find-moved_world_any :
    (run_id : String) (target : RunStatus) (p : Option PauseReason) (f : Option FailureReason)
    (d : Option Message) (w : World) (r : Run)
    → find run_id w ≡ some r
    → (j : String)
    → find j (moved_world run_id target p f d w)
      ≡ (if str_eq run_id j then some (moved run_id target p f d w r) else find j w)
find-moved_world_any run_id target p f d w r found j = elim (Bool-cases (str_eq run_id j)) [
  | inl same ↦
      let own : run_id ≡ j = ground (arith, same, eq_iff run_id j) in
      rw same (
        subst
          (λ (k : String).
            find k (moved_world run_id target p f d w) ≡ some (moved run_id target p f d w r))
          own (find-moved_world_self run_id target p f d w found))
  | inr other ↦ rw other (find-moved_world_ne run_id target p f d w j other)
]

-- set_status either raises and leaves everything as it was, or follows an edge of the transition
-- table: then the row that it returns is the run's row and has the target status, and every other
-- run is found as before.
pub set_status-Moves :
    (run_id : String) (target : RunStatus) (p : Option PauseReason) (f : Option FailureReason)
    (d : Option Message) (w : World)
    → Moves run_id target w (set_status run_id target p f d w)
set_status-Moves run_id target p f d w = elim (Option-cases (find run_id w)) [
  | inl e ↦ rw (set_status_missing run_id target p f d w e) refl
  | inr (r, e) ↦ elim (Bool-cases (may_move r.status target)) [
    | inl legal ↦ rw (set_status_legal run_id target p f d w r e legal) (
      r,
      e,
      legal,
      find-moved_world_self run_id target p f d w e,
      refl,
      find-moved_world_any run_id target p f d w r e,
    )
    | inr illegal ↦ rw (set_status_illegal run_id target p f d w r e illegal) refl
  ]
]

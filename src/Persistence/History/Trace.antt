-- ===== src/Persistence/History/Trace.antt =====
-- The operations of TraceRepository and the history of the database.
use offboarding_orchestrator.Prelude.{
  ℕ, suc, ◌≤◌, String, true, false, ◌≡◌, refl, sym, ◌∙◌, inl, inr, Option, none, some, List, [],
  ◌∷◌, All, any, select_one, update, Later, update-Later, insert-Later, arith, Bool-cases,
  Option-cases, select_one_sound, ◌==◌,
}
use offboarding_orchestrator.Domain.PauseReason.{PauseReason}
use offboarding_orchestrator.Domain.Errors.{Message}
use offboarding_orchestrator.Domain.Json.{Fields}
use offboarding_orchestrator.Domain.Run.{may_follow}
use offboarding_orchestrator.Domain.Models.{StepAttempt}
use offboarding_orchestrator.World.{Db, World}
use offboarding_orchestrator.World.Keeps.{Keeps}
use offboarding_orchestrator.Persistence.Runs.{has_run_id}
use offboarding_orchestrator.Persistence.Trace.{
  has_id, get, start_attempt, Closing, closed, close_attempt, complete_attempt, fail_attempt,
  pause_attempt,
}
use offboarding_orchestrator.Persistence.Trace.Attempts.{
  find_attempt, latest, may_start, get_attempt-state, closed_world, close_attempt_missing,
  close_attempt_illegal, close_attempt_legal, started, started_world, start_attempt_legal,
  start_attempt_illegal, start_attempt_unknown,
}
use offboarding_orchestrator.Persistence.History.{
  StepPath, StepLater, History, IsValid, StepLater-refl, History-refl, Extends-refl,
}
use offboarding_orchestrator.Persistence.History.Numbering.{
  IsNumbered, next_number_lem, update-IsNumbered, update-All,
}

pub get_attempt-History : (id : ℕ) → Keeps History (get id)
get_attempt-History id = record { at = λ w. rw get_attempt-state (History-refl w.db) }

-- A change of the table of attempts alone.
trace-History :
    (a : Db) (rows : List StepAttempt) (seq : ℕ)
    → (IsValid a
        → All (λ (r : StepAttempt). r.id ≤ seq) rows
          × IsNumbered rows
          × ((i : ℕ)
              → Later StepLater (select_one (has_id i) a.step_trace) (select_one (has_id i) rows)))
    → History a (record a { step_trace = rows; step_trace_seq = seq })
trace-History a rows seq h = record {
  after = λ v.
      let (counted, numbered, attempts) = h v in
      (
        record { counted = counted; numbered = numbered },
        record {
          runs = (Extends-refl a).runs;
          attempts = attempts;
          effects = (Extends-refl a).effects;
          applied = (Extends-refl a).applied;
        },
      );
}

closed_later :
    (id : ℕ) (c : Closing) (w : World) (r : StepAttempt)
    → find_attempt id w ≡ some r
    → may_follow r.status c.target ≡ true
    → (i : ℕ) (a : StepAttempt) → find_attempt i w ≡ some a
    → has_id id a ≡ true
    → StepLater a (closed c (w.readings w.reads) a)
closed_later id c w r e legal i a found hit =
    let same : i ≡ id = ground (arith, select_one_sound (has_id i) w.db.step_trace found) in
    let a_is_r : some a ≡ some r = sym found ∙ (rw same e) in
    record {
      run = refl;
      step = refl;
      number = refl;
      started = refl;
      status = StepPath.move StepPath.at_start c.target (ground arith);
    }

closed_world-History :
    (id : ℕ) (c : Closing) (w : World) (r : StepAttempt)
    → find_attempt id w ≡ some r
    → may_follow r.status c.target ≡ true
    → History w.db (closed_world id c w).db
closed_world-History id c w r e legal =
    let f = closed c (w.readings w.reads) in
    trace-History w.db (update (has_id id) f w.db.step_trace) w.db.step_trace_seq λ v. (
      update-All (has_id id) f (λ a. refl) (λ a. refl) (λ a. refl) (λ a. refl) w.db.step_trace_seq
          w.db.step_trace v.counted,
      update-IsNumbered (has_id id) f (λ a. refl) (λ a. refl) (λ a. refl) (λ a. refl)
          w.db.step_trace v.numbered,
      λ i.
          update-Later StepLater StepLater-refl (has_id i) (has_id id) f w.db.step_trace (λ a. refl)
            (λ a found hit. closed_later id c w r e legal i a found hit),
    )

pub close_attempt-History : (id : ℕ) (c : Closing) → Keeps History (close_attempt id c)
close_attempt-History id c = record {
  at = λ w. elim (Option-cases (find_attempt id w)) [
    | inl e ↦ rw (close_attempt_missing id c w e) (History-refl w.db)
    | inr (r, e) ↦ elim (Bool-cases (may_follow r.status c.target)) [
      | inl legal ↦
          rw (close_attempt_legal id c w r e legal) (closed_world-History id c w r e legal)
      | inr illegal ↦ rw (close_attempt_illegal id c w r e illegal) (History-refl w.db)
    ]
  ];
}

-- The ids in use are at most the counter, so the next one is new.
unused_attempt_id :
    (rows : List StepAttempt) (n i : ℕ) (a : StepAttempt)
    → All (λ (r : StepAttempt). r.id ≤ n) rows
    → select_one (has_id i) rows ≡ some a
    → (suc n == i) ≡ false
unused_attempt_id [] n i a v e = absurd (cc)
unused_attempt_id (r ∷ rows) n i a v e = elim (Bool-cases (has_id i r)) [
  | inl hit ↦ ground arith
  | inr miss ↦ unused_attempt_id rows n i a v.1 (ground arith)
]

All-suc :
    (rows : List StepAttempt) (n : ℕ)
    → All (λ (r : StepAttempt). r.id ≤ n) rows
    → All (λ (r : StepAttempt). r.id ≤ suc n) rows
All-suc [] n v = tt
All-suc (r ∷ rows) n v = (omega arith, All-suc rows n v.1)

started_world-History :
    (run_id step_name : String) (tool : Option String) (w : World)
    → History w.db (started_world run_id step_name tool w).db
started_world-History run_id step_name tool w =
    trace-History w.db (started run_id step_name tool w ∷ w.db.step_trace) (suc w.db.step_trace_seq)
      λ v. (
        (omega arith, All-suc w.db.step_trace w.db.step_trace_seq v.counted),
        (next_number_lem run_id step_name w.db.step_trace v.numbered, v.numbered),
        λ i.
            insert-Later StepLater StepLater-refl (has_id i) (started run_id step_name tool w)
              w.db.step_trace
              (λ a found.
                unused_attempt_id w.db.step_trace w.db.step_trace_seq i a v.counted found),
      )

refused_start-History :
    (run_id step_name : String) (tool : Option String) (w : World) (o : Option StepAttempt)
    → latest run_id step_name w ≡ o
    → may_start o ≡ false
    → History w.db (start_attempt run_id step_name tool w).1.db
refused_start-History run_id step_name tool w none e h = absurd (cc)
refused_start-History run_id step_name tool w (some r) e h =
    rw (start_attempt_illegal run_id step_name tool w r e h) (History-refl w.db)

pub start_attempt-History :
    (run_id step_name : String) (tool : Option String)
    → Keeps History (start_attempt run_id step_name tool)
start_attempt-History run_id step_name tool = record {
  at = λ w. elim (Bool-cases (may_start (latest run_id step_name w))) [
    | inl legal ↦ elim (Bool-cases (any (has_run_id run_id) w.db.runs)) [
      | inl known ↦
          rw (start_attempt_legal run_id step_name tool w known legal)
            (started_world-History run_id step_name tool w)
      | inr unknown ↦
          rw (start_attempt_unknown run_id step_name tool w unknown legal) (History-refl w.db)
    ]
    | inr illegal ↦
        refused_start-History run_id step_name tool w (latest run_id step_name w) refl illegal
  ];
}

pub complete_attempt-History :
    (id : ℕ) (detail : Option Fields) (tool : Option String)
    → Keeps History (complete_attempt id detail tool)
unfolding complete_attempt
complete_attempt-History id detail tool = close_attempt-History id _

pub fail_attempt-History :
    (id : ℕ) (error_type : String) (m : Message) (detail : Option Fields)
    → Keeps History (fail_attempt id error_type m detail)
unfolding fail_attempt
fail_attempt-History id error_type m detail = close_attempt-History id _

pub pause_attempt-History :
    (id : ℕ) (p : PauseReason) (detail : Option Fields) → Keeps History (pause_attempt id p detail)
unfolding pause_attempt
pause_attempt-History id p detail = close_attempt-History id _

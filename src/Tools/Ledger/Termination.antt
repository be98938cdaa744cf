-- ===== src/Tools/Ledger/Termination.antt =====
-- How deep `run_once` calls itself.
use offboarding_orchestrator.Prelude.{
  ℕ, zero, suc, String, true, false, ◌≡◌, refl, sym, ap, ◌∙◌, inl, inr, none, some, List, [], ◌∷◌,
  any, Bool-cases, Option-cases, arith, eq_iff, any-eq-is_some,
}
use offboarding_orchestrator.Domain.Json.{Fields}
use offboarding_orchestrator.Domain.Errors.{Exc, plain, recursion_error}
use offboarding_orchestrator.Domain.Result.{ok, err}
use offboarding_orchestrator.Domain.Models.{SideEffectRecord, reserved}
use offboarding_orchestrator.World.{World, pure, try_except, ◌>>=◌}
use offboarding_orchestrator.Persistence.Runs.{has_run_id}
use offboarding_orchestrator.Persistence.SideEffects
use offboarding_orchestrator.Persistence.SideEffects.{has_key, violates, try_reserve, insert_effect}
use offboarding_orchestrator.Persistence.SideEffects.Rows.{row, try_reserve_new, try_reserve_taken}
use offboarding_orchestrator.Tools.Base.{Tool}
use offboarding_orchestrator.Tools.Ledger.{
  perform, resume_existing, unless_resumed, if_reserved, window, insert_all, others_insert, pass,
  run_once,
}

abbrev pub too_deep : Exc
too_deep = record { class = recursion_error; message = plain "maximum recursion depth exceeded" }

module _ (key run_id step_name : String) (tool : Tool) (kwargs : Fields) where
  -- For a run that is not in the table of runs and a key without a row, with no other process
  -- inserting: run_once calls itself until the recursion limit, whatever it is, and raises
  -- RecursionError.
  pub run_once-unknown_run :
      (depth : ℕ) (w : World)
      → row key w ≡ none
      → any (has_run_id run_id) w.db.runs ≡ false
      → w.others ≡ []
      → (run_once depth key run_id step_name tool kwargs w).0 ≡ err too_deep
  unfolding run_once SideEffects.get pass window if_reserved
  run_once-unknown_run zero w new unknown alone = refl
  run_once-unknown_run (suc depth) w new unknown alone =
      let w' = record w { others = [] } in
      rw (new, alone, try_reserve_taken key run_id step_name tool.spec.name w' (ground arith))
        (run_once-unknown_run depth (record w { others = []; reads = suc w.reads }) new unknown
          refl)

-- An insertion that others make, refused or not, changes no run.
insert_refused :
    (r : SideEffectRecord) (w : World)
    → violates r w ≡ true
    → (try_except (insert_effect r) (λ e. pure tt) w) ≡ (ok tt, w)
unfolding insert_effect
insert_refused r w bad = rw bad refl

insert_made :
    (r : SideEffectRecord) (w : World)
    → violates r w ≡ false
    → (try_except (insert_effect r) (λ e. pure tt) w)
      ≡ (ok tt, record w { db = record w.db { side_effects = r ∷ w.db.side_effects } })
unfolding insert_effect
insert_made r w good = rw good refl

insert_all_lem :
    (rows : List SideEffectRecord) (w : World)
    → ((insert_all rows w).0 ≡ ok tt) × ((insert_all rows w).1.db.runs ≡ w.db.runs)
unfolding insert_all
insert_all_lem [] w = (refl, refl)
insert_all_lem (r ∷ rows) w = elim (Bool-cases (violates r w)) [
  | inl bad ↦ rw (insert_refused r w bad) (insert_all_lem rows w)
  | inr good ↦
      rw (insert_made r w good) (
        insert_all_lem rows
          (record w { db = record w.db { side_effects = r ∷ w.db.side_effects } }))
]

window_lem : (w : World) → ((window w).0 ≡ ok tt) × ((window w).1.db.runs ≡ w.db.runs)
unfolding window
window_lem w = go w.others
  where
    go :
        (o : List (List SideEffectRecord))
        → ((others_insert o w).0 ≡ ok tt) × ((others_insert o w).1.db.runs ≡ w.db.runs)
    go [] = (refl, refl)
    go (rows ∷ rest) = insert_all_lem rows (record w { others = rest })

-- The world in which another process has inserted one row.
abbrev raced_world : SideEffectRecord → List (List SideEffectRecord) → World → World
raced_world r rest w = record w {
  db = record w.db { side_effects = r ∷ w.db.side_effects };
  others = rest;
}

row-raced_world :
    (key : String) (r : SideEffectRecord) (rest : List (List SideEffectRecord)) (w : World)
    → r.idempotency_key ≡ key
    → row key (raced_world r rest w) ≡ some r
row-raced_world key r rest w own = ground (arith, eq_iff r.idempotency_key key)

window_race :
    (key : String) (r : SideEffectRecord) (rest : List (List SideEffectRecord)) (w : World)
    → row key w ≡ none
    → w.others ≡ (r ∷ []) ∷ rest
    → r.idempotency_key ≡ key
    → any (has_run_id r.run_id) w.db.runs ≡ true
    → (window w).1 ≡ raced_world r rest w
unfolding window insert_all
window_race key r rest w new race own known =
    let good : violates r (record w { others = rest }) ≡ false =
      rw (known, own, any-eq-is_some (has_key key) w.db.side_effects, new) refl in
    ap (λ (o : List (List SideEffectRecord)). (others_insert o w).1) race
    ∙ rw (insert_made r (record w { others = rest }) good) refl

module _ (key run_id step_name : String) (tool : Tool) (kwargs : Fields) where
  -- With a row there, one pass decides.
  one_pass :
      (d d' : ℕ) (w : World) (r : SideEffectRecord)
      → row key w ≡ some r
      → run_once (suc d) key run_id step_name tool kwargs w
        ≡ run_once (suc d') key run_id step_name tool kwargs w
  unfolding run_once SideEffects.get pass
  one_pass d d' w r e = rw e refl

  after_window :
      (d d' : ℕ) (w : World)
      → any (has_run_id run_id) w.db.runs ≡ true
      → let proceed = perform key tool kwargs in
        let reserve = try_reserve key run_id step_name tool.spec.name in
        (reserve >>= if_reserved proceed (run_once (suc d) key run_id step_name tool kwargs)) w
        ≡ (reserve >>= if_reserved proceed (run_once (suc d') key run_id step_name tool kwargs)) w
  unfolding if_reserved
  after_window d d' w known = elim (Option-cases (row key w)) [
    | inl free ↦ rw (try_reserve_new key run_id step_name tool.spec.name w free known) refl
    | inr (r, e) ↦
        rw (try_reserve_taken key run_id step_name tool.spec.name w (rw e refl))
          (one_pass d d' (record w { reads = suc w.reads }) r e)
  ]

  pub first_pass :
      (depth : ℕ) (w : World)
      → row key w ≡ none
      → run_once (suc depth) key run_id step_name tool kwargs w
        ≡ (try_reserve key run_id step_name tool.spec.name
              >>= if_reserved
                  (perform key tool kwargs)
                  (run_once depth key run_id step_name tool kwargs))
            (window w).1
  unfolding run_once SideEffects.get pass
  first_pass depth w new = rw (new, (window_lem w).0) refl

  -- For a run that exists, two nested calls of run_once are enough, whatever other processes
  -- insert meanwhile: a deeper limit gives the same result and the same state.
  pub run_once_two_passes :
      (d d' : ℕ) (w : World)
      → any (has_run_id run_id) w.db.runs ≡ true
      → run_once (suc (suc d)) key run_id step_name tool kwargs w
        ≡ run_once (suc (suc d')) key run_id step_name tool kwargs w
  run_once_two_passes d d' w known = elim (Option-cases (row key w)) [
    | inr (r, e) ↦ one_pass (suc d) (suc d') w r e
    | inl new ↦
        first_pass (suc d) w new
        ∙ after_window d d' (window w).1 (rw (window_lem w).1 known)
        ∙ sym (first_pass (suc d') w new)
  ]

  resumes_reserved :
      (depth : ℕ) (w : World) (r : SideEffectRecord)
      → row key w ≡ some r
      → r.state ≡ reserved
      → run_once (suc depth) key run_id step_name tool kwargs w ≡ perform key tool kwargs w
  unfolding run_once SideEffects.get pass resume_existing unless_resumed
  resumes_reserved depth w r found state = rw (found, state) refl

  -- When another process reserves the key between the read and the insert of run_once, run_once
  -- takes that reservation for its own and calls the tool.
  pub run_once_raced :
      (depth : ℕ) (w : World) (r : SideEffectRecord) (rest : List (List SideEffectRecord))
      → row key w ≡ none
      → w.others ≡ (r ∷ []) ∷ rest
      → r.idempotency_key ≡ key
      → r.state ≡ reserved
      → any (has_run_id r.run_id) w.db.runs ≡ true
      → (w' : World) × (row key w' ≡ some r)
        × (run_once (suc (suc depth)) key run_id step_name tool kwargs w
            ≡ perform key tool kwargs w')
  run_once_raced depth w r rest new race own state known =
      let w1 = raced_world r rest w in
      let w2 = record w1 { reads = suc w.reads } in
      let here = row-raced_world key r rest w own in
      (
        w2,
        here,
        first_pass (suc depth) w new
            ∙ rw
                (
                  window_race key r rest w new race own known,
                  try_reserve_taken key run_id step_name tool.spec.name w1 (rw here refl),
                )
                (unfold if_reserved in resumes_reserved depth w2 r here state),
      )

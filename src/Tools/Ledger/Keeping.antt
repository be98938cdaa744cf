-- ===== src/Tools/Ledger/Keeping.antt =====
-- `run_once` of tools/ledger.py and a relation with a footing.
use offboarding_orchestrator.Prelude.{
  ℕ, zero, suc, String, not, ◌||◌, ◌≡◌, refl, ◌∙◌, inl, inr, Option, none, some, List, [], ◌∷◌, any,
  is_some, Bool-cases, arith,
}
use offboarding_orchestrator.Domain.Json.{Fields}
use offboarding_orchestrator.Domain.Errors.{Exc, exception, permanent_tool_error, is_instance}
use offboarding_orchestrator.Domain.Result.{Result, ok, err}
use offboarding_orchestrator.Domain.Models.{
  SideEffectRecord, EffectState, reserved, in_progress, completed, failed,
}
use offboarding_orchestrator.World.{World, Call, Db, continue, ◌>>=◌}
use offboarding_orchestrator.World.Keeps.{
  Keeps, Keeps-bind, Keeps-pure, Keeps-raise, Keeps-try_except,
}
use offboarding_orchestrator.Persistence.Runs.{has_run_id}
use offboarding_orchestrator.Persistence.SideEffects
use offboarding_orchestrator.Persistence.SideEffects.{
  try_reserve, mark_in_progress, mark_completed, mark_failed,
}
use offboarding_orchestrator.Persistence.SideEffects.Rows.{
  row, IsOpen, marked_world, row-marked_world, set_state_lem, reserved_world, row-reserved_world,
  try_reserve_new, try_reserve_taken,
}
use offboarding_orchestrator.Tools.Base.{Tool, is_side_effecting_tool}
use offboarding_orchestrator.Tools.Isolation.{IsIsolated}
use offboarding_orchestrator.Tools.Ledger.{
  LedgerOutcome, resume_existing, resume_in_progress, resume_state, call_with_key, ask_provider,
  recovered, settle, perform, unless_resumed, if_reserved, insert_all, others_insert, window, pass,
  run_once,
}
use offboarding_orchestrator.Tools.Ledger.Provider.{
  ask_provider_Isolated, call_with_key_Isolated, row_of_Isolated,
}
use offboarding_orchestrator.Tools.Footing.{Footing, Keeps-of_Isolated, insert_keeps, reserve_keeps}

module _ {R : Db → Db → Type 0} (foot : Footing R) where
  insert_all_keeps : (rows : List SideEffectRecord) → Keeps R (insert_all rows)
  unfolding insert_all
  insert_all_keeps [] = Keeps-pure foot.order tt
  insert_all_keeps (r ∷ rows) =
      Keeps-bind foot.order _ _
        (Keeps-try_except foot.order _ _ (insert_keeps foot r) (λ e. Keeps-pure foot.order tt))
        (λ _. insert_all_keeps rows)

  others_insert_keeps : (o : List (List SideEffectRecord)) → Keeps R (others_insert o)
  unfolding others_insert
  others_insert_keeps [] = record { at = λ w. foot.order.stay w.db }
  others_insert_keeps (rows ∷ rest) = record {
    at = λ w. (insert_all_keeps rows).at (record w { others = rest });
  }

  window_keeps : Keeps R window
  unfolding window
  window_keeps = record { at = λ w. (others_insert_keeps w.others).at w }

  module _ {tool : Tool} (isolated : IsIsolated tool) (key : String) where
    asks : Keeps R (ask_provider tool key)
    asks = Keeps-of_Isolated foot (ask_provider_Isolated isolated key)

    calls : (kwargs : Fields) → Keeps R (call_with_key tool kwargs key)
    calls kwargs = Keeps-of_Isolated foot (call_with_key_Isolated isolated kwargs key)

    asked_row :
        (w : World) {r : SideEffectRecord}
        → row key w ≡ some r
        → row key (ask_provider tool key w).1 ≡ some r
    asked_row w h =
        row_of_Isolated key w (ask_provider tool key w).1
          ((ask_provider_Isolated isolated key).at w)
        ∙ h

    recovered_keeps :
        (e : Exc) (answer : Result (Option Fields)) (w : World) (r : SideEffectRecord)
        → row key w ≡ some r
        → IsOpen r
        → R w.db (continue (recovered key e) answer w).1.db
    unfolding recovered mark_completed mark_failed
    recovered_keeps e (err f) w r h is_open = foot.order.stay w.db
    recovered_keeps e (ok (some landed)) w r h is_open =
        rw (set_state_lem key completed (some landed) w r h)
          (foot.sets key completed (some landed) w r h is_open)
    recovered_keeps e (ok none) w r h is_open =
        elim (Bool-cases (is_instance e.class permanent_tool_error)) [
          | inl permanent ↦
              rw (permanent, set_state_lem key failed none w r h)
                (foot.sets key failed none w r h is_open)
          | inr other ↦ rw other (foot.order.stay w.db)
        ]

    settle_keeps :
        (called : Result Fields) (w : World) (r : SideEffectRecord)
        → row key w ≡ some r
        → IsOpen r
        → R w.db (settle key tool called w).1.db
    unfolding settle mark_completed
    settle_keeps (ok result) w r h is_open =
        rw (set_state_lem key completed (some result) w r h)
          (foot.sets key completed (some result) w r h is_open)
    settle_keeps (err e) w r h is_open = elim (Bool-cases (is_instance e.class exception)) [
      | inl caught ↦ rw caught (
          foot.order.chain w.db (ask_provider tool key w).1.db _ (asks.at w) (
            recovered_keeps e (ask_provider tool key w).0 (ask_provider tool key w).1 r
              (asked_row w h) is_open))
      | inr fatal ↦ rw fatal (foot.order.stay w.db)
    ]

    -- The call and what follows it, on a row that is open.
    perform_keeps :
        (kwargs : Fields) (w : World) (r : SideEffectRecord)
        → row key w ≡ some r
        → IsOpen r
        → R w.db (perform key tool kwargs w).1.db
    unfolding perform mark_in_progress
    perform_keeps kwargs w r h is_open =
        let w' = marked_world key in_progress none w in
        let m = call_with_key tool kwargs key w' in
        rw (set_state_lem key in_progress none w r h) (
          foot.order.chain w.db w'.db _ (foot.sets key in_progress none w r h is_open) (
            foot.order.chain w'.db m.1.db _ ((calls kwargs).at w') (
              settle_keeps m.0 m.1 _
                (row_of_Isolated key w' m.1 ((call_with_key_Isolated isolated kwargs key).at w')
                  ∙ row-marked_world key in_progress none w h)
                refl)))

    answered_keeps :
        (kwargs : Fields) (answer : Result (Option Fields)) (w : World) (r : SideEffectRecord)
        → row key w ≡ some r
        → IsOpen r
        → let m = continue (resume_in_progress key tool) answer w in
          R w.db (continue (unless_resumed (perform key tool kwargs)) m.0 m.1).1.db
    unfolding resume_in_progress unless_resumed mark_completed
    answered_keeps kwargs (err e) w r h is_open = foot.order.stay w.db
    answered_keeps kwargs (ok (some landed)) w r h is_open =
        rw (set_state_lem key completed (some landed) w r h)
          (foot.sets key completed (some landed) w r h is_open)
    answered_keeps kwargs (ok none) w r h is_open =
        elim (Bool-cases (is_side_effecting_tool tool)) [
          | inl queried ↦ rw queried (perform_keeps kwargs w r h is_open)
          | inr silent ↦ rw silent (foot.order.stay w.db)
        ]

    existing_keeps :
        (kwargs : Fields) (s : EffectState) (r : SideEffectRecord) (w : World)
        → row key w ≡ some r
        → r.state ≡ s
        → let m = resume_state s r key tool w in
          R w.db (continue (unless_resumed (perform key tool kwargs)) m.0 m.1).1.db
    unfolding resume_state unless_resumed
    existing_keeps kwargs reserved r w h e = perform_keeps kwargs w r h (rw e refl)
    existing_keeps kwargs failed r w h e = perform_keeps kwargs w r h (rw e refl)
    existing_keeps kwargs completed r w h e = foot.order.stay w.db
    existing_keeps kwargs in_progress r w h e =
        foot.order.chain w.db (ask_provider tool key w).1.db _ (asks.at w) (
          answered_keeps kwargs (ask_provider tool key w).0 (ask_provider tool key w).1 r
            (asked_row w h) (rw e refl))

    module _ (run_id step_name : String) (kwargs : Fields) where
      reserve_keeps_here : Keeps R (try_reserve key run_id step_name tool.spec.name)
      reserve_keeps_here = reserve_keeps foot key run_id step_name tool.spec.name

      reserved_keeps :
          (again : Call LedgerOutcome)
          → Keeps R again
          → (w : World)
          → let m = try_reserve key run_id step_name tool.spec.name w in
            R w.db (continue (if_reserved (perform key tool kwargs) again) m.0 m.1).1.db
      unfolding if_reserved
      reserved_keeps again ih w =
          let kept = reserve_keeps_here.at w in
          elim (Bool-cases (is_some (row key w) || not (any (has_run_id run_id) w.db.runs))) [
            | inl taken ↦
                let lem = try_reserve_taken key run_id step_name tool.spec.name w taken in
                rw lem (foot.order.chain w.db _ _ (rw lem at kept) (ih.at _))
            | inr free ↦
                let lem =
                  try_reserve_new key run_id step_name tool.spec.name w (ground arith)
                    (ground arith) in
                rw lem (
                  foot.order.chain w.db _ _ (rw lem at kept) (
                    perform_keeps kwargs (reserved_world key run_id step_name tool.spec.name w) _
                      (row-reserved_world key run_id step_name tool.spec.name w) refl))
          ]

      raced_keeps :
          (again : Call LedgerOutcome)
          → Keeps R again
          → (r : Result (Unit {0})) (w : World)
          → R w.db
              (continue
                (λ _.
                  try_reserve key run_id step_name tool.spec.name
                  >>= if_reserved (perform key tool kwargs) again)
                r
                w).1.db
      raced_keeps again ih (ok _) w = reserved_keeps again ih w
      raced_keeps again ih (err e) w = foot.order.stay w.db

      pass_keeps :
          (again : Call LedgerOutcome)
          → Keeps R again
          → (w : World) (o : Option SideEffectRecord) → row key w ≡ o
          → R w.db (pass again key run_id step_name tool kwargs o w).1.db
      unfolding pass resume_existing
      pass_keeps again ih w none e =
          foot.order.chain w.db (window w).1.db _ (window_keeps.at w)
            (raced_keeps again ih (window w).0 (window w).1)
      pass_keeps again ih w (some r) e = existing_keeps kwargs r.state r w e refl

      run_once_rec : (depth : ℕ) → Keeps R (run_once depth key run_id step_name tool kwargs)
      unfolding run_once SideEffects.get
      run_once_rec zero = Keeps-raise foot.order _ _
      run_once_rec (suc depth) = record {
        at = λ w. pass_keeps _ (run_once_rec depth) w (row key w) refl;
      }

  -- However `run_once` ends, and whatever others insert meanwhile.
  pub run_once_keeps :
      (tool : Tool)
      → IsIsolated tool
      → (depth : ℕ) (key run_id step_name : String) (kwargs : Fields)
      → Keeps R (run_once depth key run_id step_name tool kwargs)
  run_once_keeps tool isolated depth key run_id step_name kwargs =
      run_once_rec isolated key run_id step_name kwargs depth

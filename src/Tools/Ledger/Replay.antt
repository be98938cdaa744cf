-- ===== src/Tools/Ledger/Replay.antt =====
-- `run_once` of tools/ledger.py and a row that is completed.
use offboarding_orchestrator.Prelude.{
  ℕ, zero, suc, String, Bool, true, false, ◌≡◌, refl, ap, ◌∙◌, inl, inr, Option, none, some, any,
  arith, is_some, not, ◌||◌, Bool-cases,
}
use offboarding_orchestrator.Domain.Json.{Fields}
use offboarding_orchestrator.Domain.JsonText.{Members, dumps, loads, as_json, dumps-loads}
use offboarding_orchestrator.Domain.Errors.{Exc, is_instance, exception, permanent_tool_error}
use offboarding_orchestrator.Domain.Result.{Result, ok, err}
use offboarding_orchestrator.Domain.Models.{
  SideEffectRecord, EffectState, reserved, in_progress, completed, failed,
}
use offboarding_orchestrator.World.{World, Call, continue, ◌>>=◌}
use offboarding_orchestrator.Persistence.Runs.{has_run_id}
use offboarding_orchestrator.Persistence.SideEffects
use offboarding_orchestrator.Persistence.SideEffects.{
  mark_in_progress, mark_completed, mark_failed, try_reserve,
}
use offboarding_orchestrator.Persistence.SideEffects.Rows.{
  row, marked_world, row-marked_world, set_state_lem, reserved_world, row-reserved_world,
  try_reserve_new, try_reserve_taken,
}
use offboarding_orchestrator.Tools.Base.{Tool, is_side_effecting_tool}
use offboarding_orchestrator.Tools.Isolation.{IsIsolated}
use offboarding_orchestrator.Tools.Ledger.Provider.{
  ask_provider_Isolated, call_with_key_Isolated, row_of_Isolated,
}
use offboarding_orchestrator.Tools.Ledger.{
  LedgerOutcome, or_empty, resume_existing, resume_state, if_reserved, window, resume_in_progress,
  call_with_key, ask_provider, recovered, settle, perform, unless_resumed, pass, run_once,
}

module _ (key run_id step_name : String) (tool : Tool) (kwargs : Fields) (w : World) where
  -- Whatever the tool and its arguments, a completed row is answered from the ledger, and nothing
  -- changes: the tool is not called and the provider is not asked.
  pub run_once-completed :
      (depth : ℕ) (r : SideEffectRecord)
      → row key w ≡ some r
      → r.state ≡ completed
      → run_once (suc depth) key run_id step_name tool kwargs w
        ≡ (ok (record { result = or_empty r.result; replayed = true; reconciled = false }), w)
  unfolding run_once SideEffects.get pass resume_existing unless_resumed
  run_once-completed depth r e s = rw (e, s) refl

-- After a call that returned, the key's row is completed and holds the result that was returned.
abbrev pub IsSettled : String → Result LedgerOutcome × World → Type 0
IsSettled key (err e, w) = Unit
IsSettled key (ok o, w) =
    (r : SideEffectRecord) × (row key w ≡ some r)
    × (r.state ≡ completed)
    × (or_empty r.result ≡ as_json o.result)

-- What a row answers is JSON already.
or_empty_again : (o : Option Members) → or_empty o ≡ as_json (or_empty o)
unfolding dumps loads
or_empty_again none = refl
or_empty_again (some text) = rw (dumps-loads text) refl

module _ (key : String) {tool : Tool} (isolated : IsIsolated tool) where
  -- Once the key has a row, marking it completed settles it.
  completed_settles :
      (landed : Fields) (w : World) (r : SideEffectRecord) (replayed reconciled : Bool)
      → row key w ≡ some r
      → IsSettled key (
        ok (record { result = landed; replayed = replayed; reconciled = reconciled }),
        marked_world key completed (some landed) w,
      )
  completed_settles landed w r replayed reconciled e =
      (_, row-marked_world key completed (some landed) w e, refl, refl)

  recovered_settles :
      (e : Exc) (answer : Result (Option Fields)) (w : World) (r : SideEffectRecord)
      → row key w ≡ some r
      → IsSettled key (continue (recovered key e) answer w)
  unfolding recovered mark_completed mark_failed
  recovered_settles e (err f) w r h = tt
  recovered_settles e (ok (some landed)) w r h =
      rw (set_state_lem key completed (some landed) w r h)
        (completed_settles landed w r false true h)
  recovered_settles e (ok none) w r h =
      elim (Bool-cases (is_instance e.class permanent_tool_error)) [
        | inl permanent ↦ rw (permanent, set_state_lem key failed none w r h) tt
        | inr other ↦ rw other tt
      ]

  settle_settles :
      (called : Result Fields) (w : World) (r : SideEffectRecord)
      → row key w ≡ some r
      → IsSettled key (settle key tool called w)
  unfolding settle mark_completed
  settle_settles (ok result) w r h =
      rw (set_state_lem key completed (some result) w r h)
        (completed_settles result w r false false h)
  settle_settles (err e) w r h = elim (Bool-cases (is_instance e.class exception)) [
    | inl caught ↦ rw caught (
        recovered_settles e (ask_provider tool key w).0 (ask_provider tool key w).1 r (
          row_of_Isolated key w (ask_provider tool key w).1
            ((ask_provider_Isolated isolated key).at w)
          ∙ h))
    | inr fatal ↦ rw fatal tt
  ]

  perform_settles :
      (kwargs : Fields) (w : World) (r : SideEffectRecord)
      → row key w ≡ some r
      → IsSettled key (perform key tool kwargs w)
  unfolding perform mark_in_progress
  perform_settles kwargs w r h =
      let w' = marked_world key in_progress none w in
      rw (set_state_lem key in_progress none w r h) (
        settle_settles (call_with_key tool kwargs key w').0 (call_with_key tool kwargs key w').1 _ (
          row_of_Isolated key w' (call_with_key tool kwargs key w').1
            ((call_with_key_Isolated isolated kwargs key).at w')
          ∙ row-marked_world key in_progress none w h))

  answered_settles :
      (proceed : Call LedgerOutcome)
      → ((w : World) (r : SideEffectRecord) → row key w ≡ some r → IsSettled key (proceed w))
      → (answer : Result (Option Fields)) (w : World) (r : SideEffectRecord) → row key w ≡ some r
      → let m = continue (resume_in_progress key tool) answer w in
        IsSettled key (continue (unless_resumed proceed) m.0 m.1)
  unfolding resume_in_progress unless_resumed mark_completed
  answered_settles proceed go (err e) w r h = tt
  answered_settles proceed go (ok (some landed)) w r h =
      rw (set_state_lem key completed (some landed) w r h)
        (completed_settles landed w r true true h)
  answered_settles proceed go (ok none) w r h = elim (Bool-cases (is_side_effecting_tool tool)) [
    | inl queried ↦ rw queried (go w r h)
    | inr silent ↦ rw silent tt
  ]

  existing_settles :
      (proceed : Call LedgerOutcome)
      → ((w : World) (r : SideEffectRecord) → row key w ≡ some r → IsSettled key (proceed w))
      → (s : EffectState) (r : SideEffectRecord) (w : World) → row key w ≡ some r
      → r.state ≡ s
      → let m = resume_state s r key tool w in
        IsSettled key (continue (unless_resumed proceed) m.0 m.1)
  unfolding resume_state unless_resumed
  existing_settles proceed go reserved r w h e = go w r h
  existing_settles proceed go failed r w h e = go w r h
  existing_settles proceed go completed r w h e = (r, h, e, or_empty_again r.result)
  existing_settles proceed go in_progress r w h e =
      answered_settles proceed go (ask_provider tool key w).0 (ask_provider tool key w).1 r (
        row_of_Isolated key w (ask_provider tool key w).1
          ((ask_provider_Isolated isolated key).at w)
        ∙ h)

  module _ (run_id step_name : String) (kwargs : Fields) where
    reserved_settles :
        (again : Call LedgerOutcome)
        → ((w : World) → IsSettled key (again w))
        → (w : World)
        → let m = try_reserve key run_id step_name tool.spec.name w in
          IsSettled key (continue (if_reserved (perform key tool kwargs) again) m.0 m.1)
    unfolding if_reserved
    reserved_settles again ih w =
        elim (Bool-cases (is_some (row key w) || not (any (has_run_id run_id) w.db.runs))) [
          | inl taken ↦ rw (try_reserve_taken key run_id step_name tool.spec.name w taken) (ih _)
          | inr free ↦
              rw
                (try_reserve_new key run_id step_name tool.spec.name w (ground arith)
                  (ground arith))
                (perform_settles kwargs (reserved_world key run_id step_name tool.spec.name w) _
                  (row-reserved_world key run_id step_name tool.spec.name w))
        ]

    raced_settles :
        (again : Call LedgerOutcome)
        → ((w : World) → IsSettled key (again w))
        → (r : Result (Unit {0})) (w : World)
        → IsSettled key (
            continue
              (λ _.
                try_reserve key run_id step_name tool.spec.name
                >>= if_reserved (perform key tool kwargs) again)
              r
              w)
    raced_settles again ih (ok _) w = reserved_settles again ih w
    raced_settles again ih (err e) w = tt

    pass_settles :
        (again : Call LedgerOutcome)
        → ((w : World) → IsSettled key (again w))
        → (w : World) (o : Option SideEffectRecord) → row key w ≡ o
        → IsSettled key (pass again key run_id step_name tool kwargs o w)
    unfolding pass resume_existing
    pass_settles again ih w none e = raced_settles again ih (window w).0 (window w).1
    pass_settles again ih w (some r) e =
        existing_settles (perform key tool kwargs) (perform_settles kwargs) r.state r w e refl

    -- For a tool that only adds to its provider's own table: when run_once returns, the row of its
    -- key is completed, and what json.loads reads from its result is the result that was returned,
    -- as JSON gives it back, whatever the row was before and whatever other processes insert
    -- meanwhile.
    pub run_once-IsSettled :
        (depth : ℕ) (w : World) → IsSettled key (run_once depth key run_id step_name tool kwargs w)
    unfolding run_once SideEffects.get
    run_once-IsSettled zero w = tt
    run_once-IsSettled (suc depth) w =
        pass_settles (run_once depth key run_id step_name tool kwargs) (run_once-IsSettled depth) w
          (row key w) refl

settled_row :
    (key : String) (x : Result LedgerOutcome × World) (o : LedgerOutcome)
    → IsSettled key x
    → x.0 ≡ ok o
    → (r : SideEffectRecord) × (row key x.1 ≡ some r)
      × (r.state ≡ completed)
      × (or_empty r.result ≡ as_json o.result)
settled_row key (err e, w) o h eq = absurd (cc)
settled_row key (ok p, w) o (r, found, state, result) eq = (r, found, state, ground arith)

-- For a tool that only adds to its provider's own table: after a call of run_once that returned,
-- any later call for the key, by any run, step and tool and with any arguments, returns the same
-- result as JSON gives it back (with a list for each tuple), is marked as replayed and changes
-- nothing.
pub run_once_twice :
    (key : String) {tool : Tool} (isolated : IsIsolated tool) (run_id step_name : String)
    (kwargs : Fields) (depth : ℕ) (w : World) (run_id' step_name' : String) (tool' : Tool)
    (kwargs' : Fields) (depth' : ℕ) {o : LedgerOutcome}
    → (run_once depth key run_id step_name tool kwargs w).0 ≡ ok o
    → let w' = (run_once depth key run_id step_name tool kwargs w).1 in
      run_once (suc depth') key run_id' step_name' tool' kwargs' w'
      ≡ (ok (record { result = as_json o.result; replayed = true; reconciled = false }), w')
run_once_twice key {tool} isolated run_id step_name kwargs depth w run_id' step_name' tool' kwargs'
      depth' {o} e =
    let x = run_once depth key run_id step_name tool kwargs w in
    let (r, found, state, result) =
      settled_row key x o (run_once-IsSettled key isolated run_id step_name kwargs depth w) e in
    run_once-completed key run_id' step_name' tool' kwargs' x.1 depth' r found state
    ∙ ap (λ (fs : Fields). (ok (record { result = fs; replayed = true; reconciled = false }), x.1))
        result

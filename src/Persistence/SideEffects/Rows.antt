-- ===== src/Persistence/SideEffects/Rows.antt =====
-- The operations of SideEffectRepository on the row of their key.
use offboarding_orchestrator.Prelude.{
  ℕ, suc, String, Bool, true, false, not, ◌||◌, ◌≡◌, refl, Option, none, some, ◌∷◌, any, is_some,
  select_one, update, select_one-update, select_one_sound, any-eq-is_some, eq_refl,
}
use offboarding_orchestrator.Domain.Json.{Fields}
use offboarding_orchestrator.Domain.Errors.{is_instance}
use offboarding_orchestrator.Domain.Result.{ok}
use offboarding_orchestrator.Domain.Models.{SideEffectRecord, EffectState, completed}
use offboarding_orchestrator.World.{World, now}
use offboarding_orchestrator.Persistence.Runs.{has_run_id}
use offboarding_orchestrator.Persistence.SideEffects.{
  has_key, is_closed, marked, get, insert_effect, reservation, try_reserve, completion_time,
  assert_found, update_effect, set_state,
}

abbrev pub is_completed : EffectState → Bool
is_completed completed = true
is_completed _ = false

-- A row that may still change.
abbrev pub IsOpen : SideEffectRecord → Type 0
IsOpen r = is_completed r.state ≡ false

-- The ledger's row for a key.
abbrev pub row : String → World → Option SideEffectRecord
row key w = select_one (has_key key) w.db.side_effects

-- The clock is read only for a state that closes the row.
abbrev pub closing_time : Bool → World → Option ℕ
closing_time true w = some (w.readings w.reads)
closing_time false w = none

abbrev pub reads_after : Bool → World → ℕ
reads_after true w = suc w.reads
reads_after false w = w.reads

module _ (key : String) (state : EffectState) (result : Option Fields) (w : World) where
  abbrev pub marked_world : World
  marked_world = record w {
    db = record w.db {
      side_effects =
          update (has_key key) (marked state result (closing_time (is_closed state) w))
            w.db.side_effects;
    };
    reads = reads_after (is_closed state) w;
  }

  pub row-marked_world :
      {r : SideEffectRecord}
      → row key w ≡ some r
      → row key marked_world ≡ some (marked state result (closing_time (is_closed state) w) r)
  row-marked_world {r} e =
      rw
        (
          select_one-update (has_key key) (has_key key)
              (marked state result (closing_time (is_closed state) w)) w.db.side_effects
              (λ a. refl),
          e,
          select_one_sound (has_key key) w.db.side_effects e,
        )
        refl

completion_time_lem :
    (b : Bool) (w : World)
    → completion_time b w ≡ (ok (closing_time b w), record w { reads = reads_after b w })
unfolding completion_time now
completion_time_lem true w = refl
completion_time_lem false w = refl

-- A row that is there is marked, and read back as marked.
pub set_state_lem :
    (key : String) (state : EffectState) (result : Option Fields) (w : World) (r : SideEffectRecord)
    → row key w ≡ some r
    → set_state key state result w ≡ (
      ok (marked state result (closing_time (is_closed state) w) r),
      marked_world key state result w,
    )
unfolding set_state update_effect get assert_found
set_state_lem key state result w r e =
    rw (completion_time_lem (is_closed state) w, row-marked_world key state result w e) refl

abbrev pub reserved_row : String → String → String → String → World → SideEffectRecord
reserved_row key run_id step_name tool_name w =
    reservation key run_id step_name tool_name (w.readings w.reads)

abbrev pub reserved_world : String → String → String → String → World → World
reserved_world key run_id step_name tool_name w = record w {
  db = record w.db {
    side_effects = reserved_row key run_id step_name tool_name w ∷ w.db.side_effects;
  };
  reads = suc w.reads;
}

pub row-reserved_world :
    (key run_id step_name tool_name : String) (w : World)
    → row key (reserved_world key run_id step_name tool_name w)
      ≡ some (reserved_row key run_id step_name tool_name w)
row-reserved_world key run_id step_name tool_name w = rw (eq_refl key) refl

-- A key with no row, of a run that exists: the reservation is inserted and returned.
pub try_reserve_new :
    (key run_id step_name tool_name : String) (w : World)
    → row key w ≡ none
    → any (has_run_id run_id) w.db.runs ≡ true
    → try_reserve key run_id step_name tool_name w ≡ (
      ok (some (reserved_row key run_id step_name tool_name w)),
      reserved_world key run_id step_name tool_name w,
    )
unfolding try_reserve insert_effect now get
try_reserve_new key run_id step_name tool_name w e known =
    rw (any-eq-is_some (has_key key) w.db.side_effects, e, known, eq_refl key) refl

-- A key that has a row, or a run that does not exist: nothing is inserted, and the result is none.
pub try_reserve_taken :
    (key run_id step_name tool_name : String) (w : World)
    → (is_some (row key w) || not (any (has_run_id run_id) w.db.runs)) ≡ true
    → try_reserve key run_id step_name tool_name w ≡ (ok none, record w { reads = suc w.reads })
unfolding try_reserve insert_effect now is_instance
try_reserve_taken key run_id step_name tool_name w taken =
    rw (any-eq-is_some (has_key key) w.db.side_effects, taken) refl

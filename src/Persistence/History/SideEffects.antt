-- ===== src/Persistence/History/SideEffects.antt =====
-- The operations of SideEffectRepository and the history of the database.
use offboarding_orchestrator.Prelude.{
  String, true, false, ◌≡◌, refl, sym, ◌∙◌, inl, inr, Option, some, List, ◌∷◌, any, select_one,
  select_one_sound, select_one-not_any, Later, update-Later, insert-Later, arith, eq_iff,
  Bool-cases,
}
use offboarding_orchestrator.Domain.Json.{Fields}
use offboarding_orchestrator.Domain.Errors.{Exc}
use offboarding_orchestrator.Domain.Models.{SideEffectRecord, EffectState}
use mathlib.Core.Path.{subst}
use offboarding_orchestrator.World.{Db, World}
use offboarding_orchestrator.Persistence.SideEffects.Rows.{IsOpen, row, marked_world, closing_time}
use offboarding_orchestrator.World.Keeps.{
  Keeps, Keeps-bind, Keeps-now, Keeps-gets, Keeps-pure, Keeps-raise, Keeps-if, Keeps-reraise,
  Keeps-try_except,
}
use offboarding_orchestrator.Persistence.SideEffects.{
  has_key, is_closed, get, violates, insert_effect, not_reserved, marked, try_reserve,
}
use offboarding_orchestrator.Persistence.History.{
  EffectLater, History, EffectLater-refl, History-refl, History-preorder, Extends-refl,
}

effects-History :
    (a : Db) (rows : List SideEffectRecord)
    → ((k : String)
        → Later EffectLater (select_one (has_key k) a.side_effects) (select_one (has_key k) rows))
    → History a (record a { side_effects = rows })
effects-History a rows h = record {
  after = λ v. (
    record { counted = v.counted; numbered = v.numbered },
    record {
      runs = (Extends-refl a).runs;
      attempts = (Extends-refl a).attempts;
      effects = h;
      applied = (Extends-refl a).applied;
    },
  );
}

unused_key :
    (new : SideEffectRecord) (k : String) (a : SideEffectRecord) (rows : List SideEffectRecord)
    → select_one (has_key k) rows ≡ some a
    → any (has_key new.idempotency_key) rows ≡ false
    → has_key k new ≡ false
unused_key new k a rows found fresh = ground (
  arith,
  select_one_sound (has_key k) rows found,
  select_one-not_any (has_key k) (has_key new.idempotency_key) rows found fresh,
  eq_iff a.idempotency_key k,
  eq_iff a.idempotency_key new.idempotency_key,
  eq_iff new.idempotency_key k,
)

pub insert_effect-History : (new : SideEffectRecord) → Keeps History (insert_effect new)
unfolding insert_effect
insert_effect-History new = record {
  at = λ w. elim (Bool-cases (violates new w)) [
    | inl bad ↦ rw bad (History-refl w.db)
    | inr good ↦ rw good (
        effects-History w.db (new ∷ w.db.side_effects) λ k.
          insert-Later EffectLater EffectLater-refl (has_key k) new w.db.side_effects
            (λ a found. unused_key new k a w.db.side_effects found (ground arith)))
  ];
}

-- The row that is marked is the one that was found.
same_row :
    (key k : String) (rows : List SideEffectRecord) (r a : SideEffectRecord)
    → select_one (has_key key) rows ≡ some r
    → select_one (has_key k) rows ≡ some a
    → has_key key a ≡ true
    → a ≡ r
same_row key k rows r a found here hit =
    let own : k ≡ key =
      sym ((eq_iff a.idempotency_key k).0 (select_one_sound (has_key k) rows here))
      ∙ (eq_iff a.idempotency_key key).0 hit in
    let there : select_one (has_key key) rows ≡ some a =
      subst (λ (j : String). select_one (has_key j) rows ≡ some a) own here in
    cc

pub marked-History :
    (key : String) (state : EffectState) (result : Option Fields) (w : World) (r : SideEffectRecord)
    → row key w ≡ some r
    → IsOpen r
    → History w.db (marked_world key state result w).db
marked-History key state result w r found is_open =
    effects-History w.db (marked_world key state result w).db.side_effects λ k.
      update-Later EffectLater EffectLater-refl (has_key k) (has_key key)
        (marked state result (closing_time (is_closed state) w)) w.db.side_effects (λ a. refl)
        (λ a here hit.
          let same : a ≡ r = same_row key k w.db.side_effects r a found here hit in
          record {
            run = refl;
            step = refl;
            tool = refl;
            created = refl;
            settled = inl (rw same is_open);
          })

pub get_effect-History : (key : String) → Keeps History (get key)
unfolding get
get_effect-History key = Keeps-gets History-preorder _

ruleset effect_rules = (
  Keeps-bind, Keeps-now, Keeps-gets, Keeps-raise, Keeps-reraise, Keeps-pure, Keeps-if,
  Keeps-try_except, History-preorder, insert_effect-History, get_effect-History,
)

not_reserved-History : (e : Exc) → Keeps History (not_reserved e)
unfolding not_reserved
not_reserved-History e = search effect_rules

pub try_reserve-History :
    (key run_id step_name tool_name : String)
    → Keeps History (try_reserve key run_id step_name tool_name)
unfolding try_reserve
try_reserve-History key run_id step_name tool_name =
    search (effect_rules, not_reserved-History) depth 9

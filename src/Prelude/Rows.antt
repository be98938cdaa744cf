-- ===== src/Prelude/Rows.antt =====
-- A row that is read before and after a change of its table.
use mathlib.Core.Path.{◌≡◌, refl}
use mathlib.Core.Bool.{Bool, true, false}
use mathlib.Core.Option.{Option, none, some}
use mathlib.Core.List.{List, ◌∷◌}
use mathlib.Core.Logic.{inl, inr}
use offboarding_orchestrator.Prelude.Tests.{if◌then◌else◌, Bool-cases}
use offboarding_orchestrator.Prelude.Lists.{select_one, update, updated, select_one-update}

-- A row that was there is still there, and has changed as `R` allows.
abbrev pub Later {ℓ} : {A : Type ℓ} → (A → A → Type 0) → Option A → Option A → Type 0
Later R none b = Unit
Later R (some a) none = ⊥
Later R (some a) (some b) = R a b

module _ {ℓ} {A : Type ℓ} (R : A → A → Type 0) where
  pub Later-refl : ((a : A) → R a a) → (o : Option A) → Later R o o
  Later-refl stay none = tt
  Later-refl stay (some a) = stay a

  pub Later-trans :
      ((a b c : A) → R a b → R b c → R a c)
      → (o p q : Option A) → Later R o p
      → Later R p q
      → Later R o q
  Later-trans chain none p q h k = tt
  Later-trans chain (some a) none q h k = elim h [ ]
  Later-trans chain (some a) (some b) none h k = elim k [ ]
  Later-trans chain (some a) (some b) (some c) h k = chain a b c h k

  updated-Later :
      ((a : A) → R a a)
      → (p : A → Bool) (f : A → A) (o : Option A) → ((a : A) → o ≡ some a → p a ≡ true → R a (f a))
      → Later R o (updated p f o)
  updated-Later stay p f none step = tt
  updated-Later stay p f (some a) step = elim (Bool-cases (p a)) [
    | inl hit ↦ rw hit (step a refl hit)
    | inr miss ↦ rw miss (stay a)
  ]

  -- UPDATE rows SET f WHERE p, seen by a read that f does not move
  pub update-Later :
      ((a : A) → R a a)
      → (q p : A → Bool) (f : A → A) (rows : List A) → ((a : A) → q (f a) ≡ q a)
      → ((a : A) → select_one q rows ≡ some a → p a ≡ true → R a (f a))
      → Later R (select_one q rows) (select_one q (update p f rows))
  update-Later stay q p f rows keep step =
      rw (select_one-update q p f rows keep) (updated-Later stay p f (select_one q rows) step)

  insert_option :
      ((a : A) → R a a)
      → (new : A) (b : Bool) (o : Option A) → ((a : A) → o ≡ some a → b ≡ false)
      → Later R o (if b then some new else o)
  insert_option stay new b none fresh = tt
  insert_option stay new b (some a) fresh = rw (fresh a refl) (stay a)

  -- INSERT of a row whose key is new
  pub insert-Later :
      ((a : A) → R a a)
      → (q : A → Bool) (new : A) (rows : List A)
      → ((a : A) → select_one q rows ≡ some a → q new ≡ false)
      → Later R (select_one q rows) (select_one q (new ∷ rows))
  insert-Later stay q new rows fresh = insert_option stay new (q new) (select_one q rows) fresh

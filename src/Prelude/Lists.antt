-- ===== src/Prelude/Lists.antt =====
-- Lists, and tables as lists of rows: the SELECT, UPDATE and ORDER BY that the repositories use.
use Prim.Native.Nat.{ℕ, zero, suc}
use mathlib.Core.Path.{◌≡◌, refl}
use mathlib.Core.Logic.{inl, inr}
use mathlib.Core.Bool.{Bool, true, false, ◌||◌}
use mathlib.Core.Option.{Option, none, some}
use mathlib.Core.List.{List, [], ◌∷◌}
use native.Mathlib.Omega.{arith}
use offboarding_orchestrator.Prelude.Tests.{if◌then◌else◌, is_some, Bool-cases}

abbrev pub All {ℓ κ} : {A : Type ℓ} → (A → Type κ) → List A → Type κ
All P [] = Unit
All P (x ∷ xs) = P x × All P xs

module _ {ℓ} {A : Type ℓ} where
  abbrev pub length : List A → ℕ
  length [] = 0
  length (x ∷ xs) = suc (length xs)

  abbrev pub take : ℕ → List A → List A
  take zero xs = []
  take (suc n) [] = []
  take (suc n) (x ∷ xs) = x ∷ take n xs

  abbrev pub any : (A → Bool) → List A → Bool
  any p [] = false
  any p (x ∷ xs) = p x || any p xs

  -- SELECT * FROM rows WHERE p
  abbrev pub select : (A → Bool) → List A → List A
  select p [] = []
  select p (x ∷ xs) = let rest = select p xs in if p x then x ∷ rest else rest

  -- The same, with fetchone().
  abbrev pub select_one : (A → Bool) → List A → Option A
  select_one p [] = none
  select_one p (x ∷ xs) = if p x then some x else select_one p xs

  -- UPDATE rows SET f WHERE p
  abbrev pub update : (A → Bool) → (A → A) → List A → List A
  update p f [] = []
  update p f (x ∷ xs) = (if p x then f x else x) ∷ update p f xs

  -- ORDER BY, in the order that `before` gives; equal rows keep their places.
  abbrev pub insert_by : (A → A → Bool) → A → List A → List A
  insert_by before x [] = x ∷ []
  insert_by before x (y ∷ ys) = if before y x then y ∷ insert_by before x ys else x ∷ y ∷ ys

  abbrev pub order_by : (A → A → Bool) → List A → List A
  order_by before [] = []
  order_by before (x ∷ xs) = insert_by before x (order_by before xs)

pub data Listed {ℓ} {A : Type ℓ} (a : A) : List A → Type ℓ where
  here : {x : A} {xs : List A} → a ≡ x → Listed a (x ∷ xs)
  there : {x : A} {xs : List A} → Listed a xs → Listed a (x ∷ xs)

module _ {ℓ} {A : Type ℓ} where
  pub any_sound :
      (p : A → Bool) (xs : List A) → any p xs ≡ true → (a : A) × Listed a xs × (p a ≡ true)
  any_sound p [] h = absurd (ground arith)
  any_sound p (x ∷ xs) h = elim (Bool-cases (p x)) [
    | inl first ↦ (x, here refl, first)
    | inr later ↦ let (a, la, pa) = any_sound p xs (ground arith) in (a, there la, pa)
  ]

  pub any_complete :
      (p : A → Bool) (a : A) {xs : List A} → Listed a xs → p a ≡ true → any p xs ≡ true
  any_complete p a (here e) h = ground arith
  any_complete p a (there later) h = ground (arith, any_complete p a later h)

  pub select_one_sound :
      (p : A → Bool) (rows : List A) {a : A} → select_one p rows ≡ some a → p a ≡ true
  select_one_sound p [] h = absurd (cc)
  select_one_sound p (x ∷ rows) h = elim (Bool-cases (p x)) [
    | inl first ↦ ground arith
    | inr later ↦ select_one_sound p rows (ground arith)
  ]

  pub any-eq-is_some : (p : A → Bool) (rows : List A) → any p rows ≡ is_some (select_one p rows)
  any-eq-is_some p [] = refl
  any-eq-is_some p (x ∷ rows) = ground (arith, any-eq-is_some p rows)

  -- A row found after an UPDATE that leaves the key alone.
  abbrev pub updated : (A → Bool) → (A → A) → Option A → Option A
  updated p f none = none
  updated p f (some a) = some (if p a then f a else a)

  pub select_one-update :
      (q p : A → Bool) (f : A → A) (rows : List A)
      → ((a : A) → q (f a) ≡ q a)
      → select_one q (update p f rows) ≡ updated p f (select_one q rows)
  select_one-update q p f [] keep = refl
  select_one-update q p f (x ∷ rows) keep =
      ground (arith, keep x, select_one-update q p f rows keep)

  pub any-update :
      (q p : A → Bool) (f : A → A) (rows : List A)
      → ((a : A) → q (f a) ≡ q a)
      → any q (update p f rows) ≡ any q rows
  any-update q p f [] keep = refl
  any-update q p f (x ∷ rows) keep = ground (arith, keep x, any-update q p f rows keep)

  -- A row that is found passes no test that no row passes.
  pub select_one-not_any :
      (q p : A → Bool) (rows : List A) {a : A}
      → select_one q rows ≡ some a
      → any p rows ≡ false
      → p a ≡ false
  select_one-not_any q p [] h k = absurd (cc)
  select_one-not_any q p (x ∷ rows) h k = elim (Bool-cases (q x)) [
    | inl first ↦ ground arith
    | inr later ↦ select_one-not_any q p rows (ground arith) (ground arith)
  ]

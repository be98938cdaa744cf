-- ===== src/World/Keeps.antt =====
-- Relations between the database before a call and after it, whether the call returns or raises:
-- one rule for each way to build a call. A relation is a preorder, such as "no row is lost".
use offboarding_orchestrator.Prelude.{
  Bool, true, false, ◌≡◌, refl, inl, inr, Bool-cases, if◌then◌else◌,
}
use offboarding_orchestrator.Domain.Errors.{ErrorClass, Exc, Message, exception, is_instance}
use offboarding_orchestrator.Domain.Result.{Result, ok, err}
use offboarding_orchestrator.World.{
  Db, World, Call, pure, raise, reraise, lift, gets, continue, handled, try_except, with_result,
  ◌>>=◌, now, end_transaction, immediate,
}

pub record IsPreorder (R : Db → Db → Type 0) : Type 0 where
  pub stay : (a : Db) → R a a
  pub chain : (a b c : Db) → R a b → R b c → R a c

-- The database after the call stands in the relation to the one before it.
pub record Keeps (R : Db → Db → Type 0) {A : Type 0} (m : Call A) : Type 0 where
  pub at : (w : World) → R w.db (m w).1.db

module _ {R : Db → Db → Type 0} (o : IsPreorder R) where
  pub Keeps-pure : {A : Type 0} (a : A) → Keeps R (pure a)
  Keeps-pure a = record { at = λ w. o.stay w.db }

  pub Keeps-raise : {A : Type 0} (c : ErrorClass) (m : Message) → Keeps R (raise {A = A} c m)
  Keeps-raise c m = record { at = λ w. o.stay w.db }

  pub Keeps-reraise : {A : Type 0} (e : Exc) → Keeps R (reraise {A = A} e)
  Keeps-reraise e = record { at = λ w. o.stay w.db }

  pub Keeps-lift : {A : Type 0} (r : Result A) → Keeps R (lift r)
  Keeps-lift r = record { at = λ w. o.stay w.db }

  pub Keeps-gets : {A : Type 0} (f : World → A) → Keeps R (gets f)
  Keeps-gets f = record { at = λ w. o.stay w.db }

  pub Keeps-now : Keeps R now
  unfolding now
  Keeps-now = record { at = λ w. o.stay w.db }

  pub continue-Keeps :
      {A B : Type 0} (f : A → Call B) (r : Result A) (w : World)
      → ((a : A) → Keeps R (f a))
      → R w.db (continue f r w).1.db
  continue-Keeps f (ok a) w k = (k a).at w
  continue-Keeps f (err e) w k = o.stay w.db

  pub Keeps-bind :
      {A B : Type 0} (m : Call A) (f : A → Call B)
      → Keeps R m
      → ((a : A) → Keeps R (f a))
      → Keeps R (m >>= f)
  Keeps-bind m f km kf = record {
    at = λ w.
        o.chain w.db (m w).1.db ((m >>= f) w).1.db (km.at w) (continue-Keeps f (m w).0 (m w).1 kf);
  }

  handled-Keeps :
      {A : Type 0} (h : Exc → Call A) (r : Result A) (w : World)
      → ((e : Exc) → Keeps R (h e))
      → R w.db (handled h r w).1.db
  handled-Keeps h (ok a) w k = o.stay w.db
  handled-Keeps h (err e) w k = (k e).at w

  pub Keeps-try_except :
      {A : Type 0} (m : Call A) (h : Exc → Call A)
      → Keeps R m
      → ((e : Exc) → Keeps R (h e))
      → Keeps R (try_except m h)
  Keeps-try_except m h km kh = record {
    at = λ w.
        o.chain w.db (m w).1.db (try_except m h w).1.db (km.at w)
          (handled-Keeps h (m w).0 (m w).1 kh);
  }

  pub Keeps-with_result :
      {A B : Type 0} (m : Call A) (k : Result A → Call B)
      → Keeps R m
      → ((r : Result A) → Keeps R (k r))
      → Keeps R (with_result m k)
  Keeps-with_result m k km kk = record {
    at = λ w. o.chain w.db (m w).1.db (with_result m k w).1.db (km.at w) ((kk (m w).0).at (m w).1);
  }

  pub Keeps-if :
      {A : Type 0} (b : Bool) (m n : Call A)
      → (b ≡ true → Keeps R m)
      → (b ≡ false → Keeps R n)
      → Keeps R (if b then m else n)
  Keeps-if true m n km kn = km refl
  Keeps-if false m n km kn = kn refl

  end_transaction-Keeps :
      {A : Type 0} (before : Db) (r : Result A) (w : World)
      → R before w.db
      → R before (end_transaction before r w).1.db
  end_transaction-Keeps before (ok a) w h = h
  end_transaction-Keeps before (err e) w h = elim (Bool-cases (is_instance e.class exception)) [
    | inl caught ↦ rw caught (o.stay before)
    | inr fatal ↦ rw fatal h
  ]

  pub Keeps-immediate : {A : Type 0} (m : Call A) → Keeps R m → Keeps R (immediate m)
  unfolding immediate
  Keeps-immediate m km = record { at = λ w. end_transaction-Keeps w.db (m w).0 (m w).1 (km.at w) }

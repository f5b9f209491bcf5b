-- ===== src/Persistence/Atomic.antt =====
-- Actions that leave the tables alone when they fail.
use bf_techops.Prelude.{◌≡◌, refl, subst}
use bf_techops.Failure.{Failure, Result, ok, err}
use bf_techops.Persistence.Database.{
  Database, Metric, World, Action, continue, ◌>>=◌, ◌>>◌, pure, lift, count, roll_back, transaction,
  recover, try_catch,
}

-- A failure has left the tables as `db`.
abbrev pub FailsAt {ℓ} : {A : Type ℓ} → Database → Result A × World → Type 0
FailsAt db (ok a, w) = Unit
FailsAt db (err e, w) = w.db ≡ db

-- Whatever the outcome, the tables are `db`.
abbrev pub StaysAt {ℓ} : {A : Type ℓ} → Database → Result A × World → Type 0
StaysAt db (r, w) = w.db ≡ db

pub FailsAt_lem {ℓ} :
    {A : Type ℓ} (db : Database) (p : Result A × World) {e : Failure} {w : World}
    → FailsAt db p
    → ◌≡◌ {A = Result A × World} p (err e, w)
    → w.db ≡ db
FailsAt_lem db (ok a, v) f h = cc
FailsAt_lem db (err e, v) f h = cc

pub FailsAt-StaysAt {ℓ} :
    {A : Type ℓ} (db : Database) (p : Result A × World) → StaysAt db p → FailsAt db p
FailsAt-StaysAt db (ok a, w) s = tt
FailsAt-StaysAt db (err e, w) s = s

module _ {ℓ κ} {A : Type ℓ} {B : Type κ} (db : Database) where
  FailsAt-continue :
      (r : Result A) (f : A → Action B) (w : World)
      → FailsAt db (r, w)
      → ((a : A) → r ≡ ok a → FailsAt db (f a w))
      → FailsAt db (continue r f w)
  FailsAt-continue (ok a) f w s k = k a refl
  FailsAt-continue (err e) f w s k = s

  pub FailsAt-bind :
      (m : Action A) (f : A → Action B) (w : World)
      → FailsAt db (m w)
      → ((a : A) → (m w).0 ≡ ok a → FailsAt db (f a (m w).1))
      → FailsAt db ((m >>= f) w)
  unfolding ◌>>=◌
  FailsAt-bind m f w s k = FailsAt-continue (m w).0 f (m w).1 s k

  -- A first step that leaves the tables alone.
  pub FailsAt-bind_stays :
      (m : Action A) (f : A → Action B) (w : World)
      → StaysAt db (m w)
      → ((a : A) (w' : World) → w'.db ≡ db → FailsAt db (f a w'))
      → FailsAt db ((m >>= f) w)
  FailsAt-bind_stays m f w s k =
      FailsAt-bind m f w (FailsAt-StaysAt db (m w) s) (λ a e. k a (m w).1 s)

module _ {ℓ} {A : Type ℓ} where
  FailsAt-roll_back :
      (before : Database) (p : Result A × World) → FailsAt before (roll_back before p)
  FailsAt-roll_back before (ok a, w) = tt
  FailsAt-roll_back before (err e, w) = refl

  -- A transaction that throws has written nothing.
  pub FailsAt-transaction : (body : Action A) (w : World) → FailsAt w.db (transaction body w)
  unfolding transaction
  FailsAt-transaction body w = FailsAt-roll_back w.db (body w)

  FailsAt-recover :
      (db : Database) (handler : Failure → Action A) (p : Result A × World)
      → FailsAt db p
      → ((e : Failure) (w : World) → w.db ≡ db → FailsAt db (handler e w))
      → FailsAt db (recover handler p)
  FailsAt-recover db handler (ok a, w) s k = tt
  FailsAt-recover db handler (err e, w) s k = k e w s

  pub FailsAt-try_catch :
      (db : Database) (body : Action A) (handler : Failure → Action A) (w : World)
      → FailsAt db (body w)
      → ((e : Failure) (w : World) → w.db ≡ db → FailsAt db (handler e w))
      → FailsAt db (try_catch body handler w)
  unfolding try_catch
  FailsAt-try_catch db body handler w s k = FailsAt-recover db handler (body w) s k

pub FailsAt-count-pure {ℓ} :
    {A : Type ℓ} (db : Database) (m : Metric) (a : A) (w : World)
    → FailsAt db ((count m >> pure a) w)
unfolding ◌>>=◌ count pure
FailsAt-count-pure db m a w = tt

-- A step that leaves the world alone, or fails and leaves the tables alone.
pub FailsAt-lift {ℓ} : {A : Type ℓ} (r : Result A) (w : World) → FailsAt w.db (lift r w)
unfolding lift
FailsAt-lift (ok a) w = tt
FailsAt-lift (err e) w = refl

pub FailsAt-move {ℓ} :
    {A : Type ℓ} (p : Result A × World) {db db' : Database}
    → db ≡ db'
    → FailsAt db p
    → FailsAt db' p
FailsAt-move p e f = subst (λ (d : Database). FailsAt d p) e f

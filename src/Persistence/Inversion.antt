-- ===== src/Persistence/Inversion.antt =====
-- To take a successful action apart, step by step: what comes after each step is a function of what
-- the step gave, so that the terms stay small.
use bf_techops.Prelude.{
  if◌then◌else◌, ℕ, ◌+◌, ◌≡◌, refl, ap, subst, Bool, true, false, Option, none, some, ◌∷◌,
}
use bf_techops.Failure.{Failure, Result, ok, err}
use bf_techops.Persistence.Database.{
  Database, Env, Metric, World, Action, continue, ◌>>=◌, ◌>>◌, lift, gets, attempt, throw_if,
  some_or_throw, write, count, draw, pure, roll_back, throw, transaction, recover, try_catch,
}
use bf_techops.Persistence.Insert.{refusal}

abbrev value_or {ℓ} : {A : Type ℓ} → A → Result A → A
value_or a (ok b) = b
value_or a (err e) = a

module _ {ℓ} {A : Type ℓ} {a b : A} {w w' : World} where
  pub ok_value : ◌≡◌ {A = Result A × World} (ok a, w) (ok b, w') → a ≡ b
  ok_value h = ap (λ (r : Result A × World). value_or a r.0) h

  pub ok_world : ◌≡◌ {A = Result A × World} (ok a, w) (ok b, w') → w ≡ w'
  ok_world h = ap (λ (r : Result A × World). r.1) h

module _ {ℓ κ μ} {A : Type ℓ} {B : Type κ} {C : Type μ} where
  on_continue :
      (r : Result A) (f : A → Action B) {w w'' : World} {b : B}
      → continue r f w ≡ (ok b, w'')
      → ((a : A) → r ≡ ok a → f a w ≡ (ok b, w'') → C)
      → C
  on_continue (ok a) f h k = k a refl h
  on_continue (err e) f h k = cc

  pub on_bind :
      (m : Action A) (f : A → Action B) {w w'' : World} {b : B}
      → (m >>= f) w ≡ (ok b, w'')
      → ((a : A) (w' : World) → m w ≡ (ok a, w') → f a w' ≡ (ok b, w'') → C)
      → C
  unfolding ◌>>=◌
  on_bind m f {w} h k = on_continue (m w).0 f h λ a e h'. k a (m w).1 (λ i. (e i, (m w).1)) h'

  pub on_lift :
      (r : Result A) (f : A → Action B) {w w'' : World} {b : B}
      → (lift r >>= f) w ≡ (ok b, w'')
      → ((a : A) → r ≡ ok a → f a w ≡ (ok b, w'') → C)
      → C
  unfolding ◌>>=◌ lift
  on_lift r f h k = on_continue r f h k

  pub on_attempt :
      (g : World → Result A) (f : A → Action B) {w w'' : World} {b : B}
      → (attempt g >>= f) w ≡ (ok b, w'')
      → ((a : A) → g w ≡ ok a → f a w ≡ (ok b, w'') → C)
      → C
  unfolding ◌>>=◌ attempt
  on_attempt g f {w} h k = on_continue (g w) f h k

  pub on_some :
      (o : Option A) (e : Failure) (f : A → Action B) {w w'' : World} {b : B}
      → (some_or_throw o e >>= f) w ≡ (ok b, w'')
      → ((a : A) → o ≡ some a → f a w ≡ (ok b, w'') → C)
      → C
  unfolding ◌>>=◌ some_or_throw lift
  on_some none e f h k = cc
  on_some (some a) e f h k = k a refl h

module _ {κ μ} {B : Type κ} {C : Type μ} where
  pub on_throw_if :
      (c : Bool) (e : Failure) (m : Action B) {w w'' : World} {b : B}
      → (throw_if c e >> m) w ≡ (ok b, w'')
      → (c ≡ false → m w ≡ (ok b, w'') → C)
      → C
  unfolding ◌>>=◌ throw_if lift
  on_throw_if true e m h k = cc
  on_throw_if false e m h k = k refl h

-- Steps that cannot fail.
module _ {ℓ κ} {A : Type ℓ} {B : Type κ} where
  pub after_gets :
      (g : World → A) (f : A → Action B) {w w'' : World} {b : B}
      → (gets g >>= f) w ≡ (ok b, w'')
      → f (g w) w ≡ (ok b, w'')
  unfolding ◌>>=◌ gets
  after_gets g f h = h

module _ {κ} {B : Type κ} where
  pub after_draw :
      (env : Env) (f : ℕ → Action B) {w w'' : World} {b : B}
      → (draw env >>= f) w ≡ (ok b, w'')
      → f (env.random_uuid w.drawn) (record w { drawn = w.drawn + 1 }) ≡ (ok b, w'')
  unfolding ◌>>=◌ draw
  after_draw env f h = h

  pub after_write :
      (g : Database → Database) (m : Action B) {w w'' : World} {b : B}
      → (write g >> m) w ≡ (ok b, w'')
      → m (record w { db = g w.db }) ≡ (ok b, w'')
  unfolding ◌>>=◌ write
  after_write g m h = h

  pub after_count :
      (c : Metric) (m : Action B) {w w'' : World} {b : B}
      → (count c >> m) w ≡ (ok b, w'')
      → m (record w { metrics = c ∷ w.metrics }) ≡ (ok b, w'')
  unfolding ◌>>=◌ count
  after_count c m h = h

-- An INSERT that went through.
module _ {κ μ} {B : Type κ} {C : Type μ} where
  on_refusal :
      (fits duplicate : Bool) (w w₁ : World) (m : Action B) {w'' : World} {b : B}
      → (let (r, w') = refusal fits duplicate w w₁ in continue r (λ _. m) w') ≡ (ok b, w'')
      → (fits ≡ true → duplicate ≡ false → m w₁ ≡ (ok b, w'') → C)
      → C
  unfolding refusal
  on_refusal false duplicate w w₁ m h k = cc
  on_refusal true true w w₁ m h k = cc
  on_refusal true false w w₁ m h k = k refl refl h

  pub on_insert :
      (fits duplicate : Bool) (insert : Action (Unit {0})) (m : Action B) (w w₁ : World)
      {w'' : World} {b : B}
      → insert w ≡ refusal fits duplicate w w₁
      → (insert >> m) w ≡ (ok b, w'')
      → (fits ≡ true → duplicate ≡ false → m w₁ ≡ (ok b, w'') → C)
      → C
  unfolding ◌>>=◌
  on_insert fits duplicate insert m w w₁ {w''} {b} e h k =
      on_refusal fits duplicate w w₁ m
        (subst (λ (p : Result (Unit {0}) × World). continue p.0 (λ _. m) p.1 ≡ (ok b, w'')) e h) k

-- The last INSERT of an action.
pub refusal-ok :
    (fits duplicate : Bool) (w w₁ : World) {u : Unit {0}} {w' : World}
    → refusal fits duplicate w w₁ ≡ (ok u, w')
    → (duplicate ≡ false) × (w₁ ≡ w')
unfolding refusal
refusal-ok false duplicate w w₁ h = cc
refusal-ok true true w w₁ h = cc
refusal-ok true false w w₁ h = (refl, ok_world h)

pub pure-ok {ℓ} :
    {A : Type ℓ} (a : A) (w : World) {b : A} {w' : World}
    → pure a w ≡ (ok b, w')
    → (a ≡ b) × (w ≡ w')
unfolding pure
pure-ok a w h = (ok_value h, ok_world h)

pub some_or_throw-ok {ℓ} :
    {A : Type ℓ} (o : Option A) (e : Failure) (w : World) {a : A} {w' : World}
    → some_or_throw o e w ≡ (ok a, w')
    → (o ≡ some a) × (w ≡ w')
unfolding some_or_throw lift
some_or_throw-ok none e w h = cc
some_or_throw-ok (some b) e w h = (ap some (ok_value h), ok_world h)

module _ {ℓ} {A : Type ℓ} where
  on_roll_back :
      (before : Database) (p : Result A × World) {a : A} {w' : World}
      → ◌≡◌ {A = Result A × World} (roll_back before p) (ok a, w')
      → p ≡ (ok a, w')
  on_roll_back before (ok b, w) h = h
  on_roll_back before (err e, w) h = cc

  -- A transaction that went through is its body.
  pub transaction-ok :
      (body : Action A) (w : World) {a : A} {w' : World}
      → transaction body w ≡ (ok a, w')
      → body w ≡ (ok a, w')
  unfolding transaction
  transaction-ok body w h = on_roll_back w.db (body w) h

module _ {ℓ μ} {A : Type ℓ} {C : Type μ} where
  on_recover :
      (handler : Failure → Action A) (p : Result A × World) {a : A} {w' : World}
      → ◌≡◌ {A = Result A × World} (recover handler p) (ok a, w')
      → (p ≡ (ok a, w') → C)
      → ((e : Failure) (w₁ : World) → p ≡ (err e, w₁) → handler e w₁ ≡ (ok a, w') → C)
      → C
  on_recover handler (ok b, w) h went caught = went h
  on_recover handler (err e, w) h went caught = caught e w refl h

  -- A `try` that ends well went through, or its handler did.
  pub on_try_catch :
      (body : Action A) (handler : Failure → Action A) (w : World) {a : A} {w' : World}
      → try_catch body handler w ≡ (ok a, w')
      → (body w ≡ (ok a, w') → C)
      → ((e : Failure) (w₁ : World) → body w ≡ (err e, w₁) → handler e w₁ ≡ (ok a, w') → C)
      → C
  unfolding try_catch
  on_try_catch body handler w h went caught = on_recover handler (body w) h went caught

  pub on_if :
      (c : Bool) (x y : Action A) (w : World) {a : A} {w' : World}
      → (if c then x else y) w ≡ (ok a, w')
      → (c ≡ true → x w ≡ (ok a, w') → C)
      → (c ≡ false → y w ≡ (ok a, w') → C)
      → C
  on_if true x y w h on off = on refl h
  on_if false x y w h on off = off refl h

  -- `throw` does not end well.
  pub on_count_throw :
      (m : Metric) (e : Failure) (w : World) {a : A} {w' : World}
      → (count m >> throw e) w ≡ (ok a, w')
      → C
  unfolding ◌>>=◌ count throw
  on_count_throw m e w h = cc

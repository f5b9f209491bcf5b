-- ===== src/Failure.antt =====
-- Errors as values: the exceptions that the handlers throw (HTTP exceptions of the API, errors of
-- packages/domain), and the errors of the database driver that they tell apart.
use bf_techops.Prelude.{String, ◌≡◌, refl, ap, Bool, true, false, Option, none, some}

-- `error.code` of the domain's own errors
pub data ErrorCode : Type 0 where
  store_access_denied invalid_invoice_transition invalid_actor_token : ErrorCode
  invalid_webhook_signature : ErrorCode

pub data Failure : Type 0 where
  -- 400, 401, 403, 404, 409
  bad_request unauthorized forbidden not_found conflict : String → Failure
  -- TypeError and RangeError
  type_error range_error : String → Failure
  coded : ErrorCode → String → Failure
  -- an Error without a code
  error : String → Failure
  -- ER_DUP_ENTRY: a unique index refused a row
  dup_entry : Failure
  -- a value does not fit its column
  out_of_range : Failure

pub data Result {ℓ} (A : Type ℓ) : Type ℓ where
  ok : A → Result A
  err : Failure → Result A

-- `if (c) throw e` and `if (!value) throw e`
unfoldable pub reject_if : Bool → Failure → Result (Unit {0})
reject_if true e = err e
reject_if false e = ok tt

unfoldable pub or_throw {ℓ} : {A : Type ℓ} → Option A → Failure → Result A
or_throw none e = err e
or_throw (some a) e = ok a

infixl 5 ◌>>=◌ ◌>>◌
-- The rest of a block runs on the value, unless an exception was thrown.
unfoldable pub ◌>>=◌ {κ ν} : {V : Type κ} {W : Type ν} → Result V → (V → Result W) → Result W
err thrown >>= rest = err thrown
ok v >>= rest = rest v

abbrev pub ◌>>◌ {ν} : {W : Type ν} → Result (Unit {0}) → Result W → Result W
checked >> rest = checked >>= λ _. rest

-- To take a successful computation apart, step by step: what comes after each step is a function of
-- the step's value, so that the terms stay small.
module _ {ℓ κ μ} {A : Type ℓ} {B : Type κ} {C : Type μ} where
  pub on_bind :
      (m : Result A) (f : A → Result B) {b : B}
      → (m >>= f) ≡ ok b
      → ((a : A) → m ≡ ok a → f a ≡ ok b → C)
      → C
  unfolding ◌>>=◌
  on_bind (ok a) f h k = k a refl h
  on_bind (err e) f h k = cc

module _ {ℓ μ} {B : Type ℓ} {C : Type μ} where
  pub on_reject :
      (c : Bool) (e : Failure) (m : Result B) {b : B}
      → (reject_if c e >> m) ≡ ok b
      → (c ≡ false → m ≡ ok b → C)
      → C
  unfolding ◌>>=◌ reject_if
  on_reject true e m h k = cc
  on_reject false e m h k = k refl h

abbrev value_or {ℓ} : {A : Type ℓ} → A → Result A → A
value_or a (ok b) = b
value_or a (err e) = a

pub ok-injective {ℓ} : {A : Type ℓ} {a b : A} → ok a ≡ ok b → a ≡ b
ok-injective {a = a} h = ap (value_or a) h

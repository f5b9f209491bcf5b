-- ===== src/Invoices/Create.antt =====
-- `create` under an idempotency key: what went through, and what the same request gets again.
use bf_techops.Prelude.{
  ◌≡◌, ◌⊎◌, refl, sym, ap, subst, Bool, Option, none, some, ◌==◌, inl, inr, arith, Bool-cases,
}
use bf_techops.Js.{Text}
use bf_techops.Failure.{Failure, Result, ok, err}
use bf_techops.Wire.{ActorTokenPayload, CreateInvoiceDto, InvoiceResponse}
use bf_techops.Persistence.Entities.{IdempotencyRecordEntity}
use bf_techops.Persistence.Database.{
  Database, Env, World, Action, ◌>>=◌, ◌>>◌, pure, throw, lift, gets, write, count,
  transaction_read_committed, try_catch,
}
use bf_techops.Persistence.Inversion.{
  on_bind, on_lift, on_if, on_count_throw, after_gets, after_write, after_count, pure-ok,
  transaction-ok, on_try_catch,
}
use bf_techops.Persistence.Atomic.{
  FailsAt, FailsAt_lem, FailsAt-move, FailsAt-bind, FailsAt-count-pure, FailsAt-transaction,
  FailsAt-try_catch,
}
use bf_techops.Domain.IdempotencyKey.{normalize_idempotency_key}
use bf_techops.Invoices.Defs.{
  domain_input, is_duplicate_key, find_idempotency, replay_or_conflict, create_under_key,
  after_race, create_failed, create, outcome,
}
use bf_techops.Invoices.Defs.Rows.{request_fingerprint}
use bf_techops.Invoices.Issue.{domain_input-ok, HasRecord, Issued, issue_invoice-Issued}

module _ {ℓ κ} {A : Type ℓ} {B : Type κ} (others : Database → Database) (f : World → A)
    (writes : A → Action B) (w : World) where
  read_committed-ok :
      {b : B} {w' : World}
      → transaction_read_committed others (gets f) writes w ≡ (ok b, w')
      → writes (f w) (record w { db = others w.db }) ≡ (ok b, w')
  unfolding transaction_read_committed
  read_committed-ok h = transaction-ok (writes (f w)) _ (after_write _ _ (after_gets _ _ h))

  -- It fails only with the tables that the others have left.
  read_committed-FailsAt :
      FailsAt (others w.db) (transaction_read_committed others (gets f) writes w)
  unfolding transaction_read_committed ◌>>=◌ gets write
  read_committed-FailsAt = FailsAt-transaction (writes (f w)) (record w { db = others w.db })

module _ (env : Env) (actor : ActorTokenPayload) (request_id : Option Text)
    (dto : CreateInvoiceDto) where
  -- A stored response was given again: the record under the key has this request's fingerprint, and
  -- the tables stay.
  pub record Replayed (key : Text) (db : Database) (response : InvoiceResponse) (db' : Database)
      : Type 0 where
    pub seen : HasRecord env actor request_id dto key db response
    pub unchanged : db' ≡ db

  throw-ok {ℓ} :
      {C : Type ℓ} (e : Failure) (w : World) {a : InvoiceResponse × Bool} {w' : World}
      → throw e w ≡ (ok a, w')
      → C
  unfolding throw
  throw-ok e w h = cc

  throw_response {ℓ} :
      {C : Type ℓ} (e : Failure) (w : World) {a : InvoiceResponse} {w' : World}
      → throw e w ≡ (ok a, w')
      → C
  unfolding throw
  throw_response e w h = cc

  -- The part after the reads, for what they have found.
  unfoldable pub Created :
      (key : Text) (found : Option IdempotencyRecordEntity) (db : Database)
      (response : InvoiceResponse) (db' : Database)
      → Type 0
  Created key none db response db' = Issued env actor request_id dto key db response db'
  Created key (some r) db response db' =
      (r.request_hash ≡ request_fingerprint env dto) × (r.response_body ≡ response) × (db' ≡ db)

  create_under_key-Created :
      (key : Text) (o : Option IdempotencyRecordEntity) (w : World) {w' : World}
      {response : InvoiceResponse} {replayed : Bool}
      → create_under_key env actor request_id dto key o w ≡ (ok (response, replayed), w')
      → Created key o w.db response w'.db
  unfolding create_under_key replay_or_conflict Created
  create_under_key-Created key none w h = issue_invoice-Issued env actor request_id dto key w h
  create_under_key-Created key (some r) w h =
      on_if (r.request_hash == request_fingerprint env dto) _ _ w h
        (λ same h'.
          let done = pure-ok _ _ h' in
          (
            ground arith,
            ap (λ (p : InvoiceResponse × Bool). p.0) done.0,
            ap (λ (v : World). v.db) (sym done.1),
          ))
        λ other h'. throw-ok _ w h'

  after_race-Replayed :
      (key : Text) (o : Option IdempotencyRecordEntity) (w : World) {w' : World}
      {response : InvoiceResponse}
      → find_idempotency env w.db actor.actor_merchant_id key ≡ o
      → after_race env actor request_id dto o w ≡ (ok response, w')
      → Replayed key w.db response w'.db
  unfolding after_race
  after_race-Replayed key none w seen h = throw_response _ w h
  after_race-Replayed key (some r) w seen h =
      on_if (r.request_hash == request_fingerprint env dto) _ _ w h
        (λ same h'.
          let done = pure-ok _ _ (after_count _ _ h') in
          record {
            seen = (r, seen, ground arith, done.0);
            unchanged = ap (λ (v : World). v.db) (sym done.1);
          })
        λ other h'. throw_response _ w h'

  -- The `try` block fails only with the tables that the others have left.
  try_block : (Database → Database) → Text → Action InvoiceResponse
  try_block others key =
      transaction_read_committed others
        (gets (λ w. find_idempotency env w.db actor.actor_merchant_id key))
        (create_under_key env actor request_id dto key)
      >>= λ result. count (outcome env actor request_id dto result.1) >> pure result.0

  try_block-FailsAt :
      (others : Database → Database) (key : Text) (w : World)
      → FailsAt (others w.db) (try_block others key w)
  unfolding try_block
  try_block-FailsAt others key w =
      FailsAt-bind (others w.db) _ _ w (read_committed-FailsAt others _ _ w)
        λ result e. FailsAt-count-pure (others w.db) _ result.0 _

  try_block-Created :
      (others : Database → Database) (key : Text) (w : World) {w' : World}
      {response : InvoiceResponse}
      → try_block others key w ≡ (ok response, w')
      → Created key
          (find_idempotency env w.db actor.actor_merchant_id key)
          (others w.db)
          response
          w'.db
  unfolding try_block
  try_block-Created others key w {w'} {response} h =
      on_bind (transaction_read_committed others _ _) _ h λ result w₁ transacted h₁.
        let done = pure-ok result.0 _ (after_count _ _ h₁) in
        let body =
          create_under_key-Created key _ (record w { db = others w.db })
            (read_committed-ok others _ _ w transacted) in
        let found = find_idempotency env w.db actor.actor_merchant_id key in
        subst (λ (d : Database). Created key found (others w.db) response d)
          (ap (λ (v : World). v.db) done.1)
          (subst (λ (r : InvoiceResponse). Created key found (others w.db) r w₁.db) done.0 body)

  -- An answer of `create` is a new invoice, issued on the tables as the others have left them when no
  -- record was found under the key: for an authorized store, with the figures that the calculation
  -- returns for the request's items, one line row for each item in its order from position 1, an
  -- event, an audit record and the record under the key, and nothing else written; or the response of the record that was found, which has this
  -- request's fingerprint, with nothing written; or, when another transaction took the key in the
  -- meantime, the response of the record that stands there now, with nothing written.
  pub create-Answered :
      (others : Database → Database) (raw_key : Option Text) (w : World) {w' : World}
      {response : InvoiceResponse}
      → create env actor request_id dto others raw_key w ≡ (ok response, w')
      → (key : Text) × (normalize_idempotency_key raw_key ≡ ok key)
        × (Created key
              (find_idempotency env w.db actor.actor_merchant_id key)
              (others w.db)
              response
              w'.db
            ⊎ Replayed key (others w.db) response w'.db)
  unfolding create try_block create_failed
  create-Answered others raw_key w {w'} {response} h = on_lift _ _ h λ key normal h₁. (
    key,
    domain_input-ok (normalize_idempotency_key raw_key) normal,
    on_try_catch (try_block others key) (create_failed env actor request_id dto key) w h₁
        (λ went. inl (try_block-Created others key w went))
        λ e w₁ failed h₂.
          on_if (is_duplicate_key e) _ _ w₁ h₂
            (λ race h₃. inr (
              subst (λ (d : Database). Replayed key d response w'.db)
                (FailsAt_lem (others w.db) _ (try_block-FailsAt others key w) failed)
                (after_race-Replayed key _ w₁ refl (after_gets _ _ h₃))))
            λ other h₃. on_count_throw _ _ w₁ h₃,
  )

  after_race-FailsAt :
      (o : Option IdempotencyRecordEntity) (w : World)
      → FailsAt w.db (after_race env actor request_id dto o w)
  unfolding after_race ◌>>=◌ count throw pure
  after_race-FailsAt none w = refl
  after_race-FailsAt (some r) w =
      elim (Bool-cases (r.request_hash == request_fingerprint env dto)) [
        | inl same ↦ rw same tt
        | inr other ↦ rw other refl
      ]

  create_failed-FailsAt :
      (key : Text) (e : Failure) (w : World)
      → FailsAt w.db (create_failed env actor request_id dto key e w)
  unfolding create_failed ◌>>=◌ count throw gets
  create_failed-FailsAt key e w = elim (Bool-cases (is_duplicate_key e)) [
    | inl race ↦
        rw race (after_race-FailsAt (find_idempotency env w.db actor.actor_merchant_id key) w)
    | inr other ↦ rw other refl
  ]

  under_key-FailsAt :
      (others : Database → Database) (key : Text) (w : World)
      → FailsAt
          (others w.db)
          (try_catch (try_block others key) (create_failed env actor request_id dto key) w)
  under_key-FailsAt others key w =
      FailsAt-try_catch (others w.db) _ _ w (try_block-FailsAt others key w) λ e w₁ same.
        FailsAt-move (create_failed env actor request_id dto key e w₁) same
          (create_failed-FailsAt key e w₁)

  failed_tables :
      (others : Database → Database) (r : Result Text) (w : World) {w' : World} {e : Failure}
      → (lift r >>= λ key.
            try_catch (try_block others key) (create_failed env actor request_id dto key))
          w
        ≡ (err e, w')
      → (w'.db ≡ w.db) ⊎ (w'.db ≡ others w.db)
  unfolding lift ◌>>=◌
  failed_tables others (ok key) w h =
      inr (FailsAt_lem (others w.db) _ (under_key-FailsAt others key w) h)
  failed_tables others (err e) w h =
      inl (ap (λ (p : Result InvoiceResponse × World). p.1.db) (sym h))

  -- An error of `create` leaves the tables as they were, or as the other transactions have left them.
  pub create_atomic :
      (others : Database → Database) (raw_key : Option Text) (w w' : World) (e : Failure)
      → create env actor request_id dto others raw_key w ≡ (err e, w')
      → (w'.db ≡ w.db) ⊎ (w'.db ≡ others w.db)
  unfolding create try_block
  create_atomic others raw_key w w' e h =
      failed_tables others (domain_input (normalize_idempotency_key raw_key)) w h

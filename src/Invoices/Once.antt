-- ===== src/Invoices/Once.antt =====
-- A request that is sent again under its key.
use bf_techops.Prelude.{
  ℕ, ◌≡◌, ◌≢◌, refl, sym, subst, true, false, Option, none, some, ◌∷◌, ◌==◌, inl, inr, arith,
}
use bf_techops.Js.{Text}
use bf_techops.Failure.{ok, err, conflict}
use bf_techops.Wire.{Uuid, Time, ActorTokenPayload, CreateInvoiceDto, InvoiceResponse}
use bf_techops.Persistence.Entities.{IdempotencyRecordEntity}
use bf_techops.Persistence.Database.{
  Database, Env, Metric, World, ◌>>=◌, pure, throw, lift, gets, write, count, transaction,
  transaction_read_committed, try_catch,
}
use bf_techops.Domain.IdempotencyKey.{normalize_idempotency_key}
use bf_techops.Invoices.Defs.{
  find_idempotency, replay_or_conflict, create_under_key, create_failed, create,
}
use bf_techops.Invoices.Defs.Rows.{request_fingerprint}
use bf_techops.Invoices.Issue.{HasRecord, Issued-HasRecord}
use bf_techops.Invoices.Create.{Created, create-Answered}

module _ (env : Env) (actor : ActorTokenPayload) (request_id : Option Text)
    (dto : CreateInvoiceDto) where
  -- The records under the actor's keys that the first tables hold are held by the second.
  abbrev pub Keeps : Database → Database → Type 0
  Keeps db db' =
      (key : Text) (r : IdempotencyRecordEntity)
      → find_idempotency env db actor.actor_merchant_id key ≡ some r
      → find_idempotency env db' actor.actor_merchant_id key ≡ some r

  Created-HasRecord :
      (others : Database → Database) (key : Text) (o : Option IdempotencyRecordEntity)
      (db db' : Database) (response : InvoiceResponse)
      → find_idempotency env db actor.actor_merchant_id key ≡ o
      → Keeps db (others db)
      → Created env actor request_id dto key o (others db) response db'
      → HasRecord env actor request_id dto key db' response
  unfolding Created
  Created-HasRecord others key none db db' response found keeps c =
      Issued-HasRecord env actor request_id dto key c
  Created-HasRecord others key (some r) db db' response found keeps c =
      subst (λ (d : Database). HasRecord env actor request_id dto key d response) (sym c.2)
        (r, keeps key r found, c.0, c.1)

  answered-HasRecord :
      (others : Database → Database) (raw_key : Option Text) (w : World) {w' : World}
      {response : InvoiceResponse}
      → Keeps w.db (others w.db)
      → create env actor request_id dto others raw_key w ≡ (ok response, w')
      → (key : Text) × (normalize_idempotency_key raw_key ≡ ok key)
        × HasRecord env actor request_id dto key w'.db response
  answered-HasRecord others raw_key w {w'} {response} keeps h =
      let (key, normal, answered) = create-Answered env actor request_id dto others raw_key w h in
      (
        key,
        normal,
        elim answered [
          | inl c ↦ Created-HasRecord others key _ w.db w'.db response refl keeps c
          | inr r ↦
              subst (λ (d : Database). HasRecord env actor request_id dto key d response)
                (sym r.unchanged) r.seen
        ],
      )

  replayed_lem :
      (later : Database → Database) (raw_key : Option Text) (key : Text) (w : World)
      (response : InvoiceResponse)
      → normalize_idempotency_key raw_key ≡ ok key
      → HasRecord env actor request_id dto key w.db response
      → create env actor request_id dto later raw_key w ≡ (
        ok response,
        record w { db = later w.db; metrics = Metric.invoices "replayed" ∷ w.metrics },
      )
  unfolding create transaction_read_committed create_under_key replay_or_conflict ◌>>=◌ pure throw
      lift gets write count transaction try_catch
  replayed_lem later raw_key key w response normal (r, found, same, stored) =
      let e : (r.request_hash == request_fingerprint env dto) ≡ true = ground arith in
      rw normal (rw found (rw e (rw stored refl)))

  refused_lem :
      (dto₂ : CreateInvoiceDto) (later : Database → Database) (raw_key : Option Text) (key : Text)
      (w : World) (response : InvoiceResponse)
      → normalize_idempotency_key raw_key ≡ ok key
      → HasRecord env actor request_id dto key w.db response
      → request_fingerprint env dto ≢ request_fingerprint env dto₂
      → create env actor request_id dto₂ later raw_key w ≡ (
        err (conflict "Idempotency key was already used with a different request"),
        record w { db = later w.db; metrics = Metric.invoices "failed" ∷ w.metrics },
      )
  unfolding create transaction_read_committed create_under_key replay_or_conflict ◌>>=◌ pure throw
      lift gets write count transaction try_catch create_failed
  refused_lem dto₂ later raw_key key w response normal (r, found, same, stored) other =
      let e : (r.request_hash == request_fingerprint env dto₂) ≡ false = ground arith in
      rw normal (rw found (rw e refl))

-- The environment at another time, with other UUIDs to come; the functions stay.
abbrev pub at : Env → Time → (ℕ → Uuid) → Env
at env now random_uuid = record env { now = now; random_uuid = random_uuid }

module _ (env : Env) (actor : ActorTokenPayload) (request_id : Option Text) (dto : CreateInvoiceDto)
    (now : Time) (random_uuid : ℕ → Uuid) (request_id' : Option Text) where
  record_later :
      (key : Text) (db db' : Database) (response : InvoiceResponse)
      → HasRecord env actor request_id dto key db response
      → Keeps env actor request_id dto db db'
      → HasRecord (at env now random_uuid) actor request_id' dto key db' response
  unfolding find_idempotency request_fingerprint
  record_later key db db' response (r, found, same, stored) keeps =
      (r, keeps key r found, same, stored)

  -- Once `create` has answered a request well, the same request under the same key gets the same
  -- response at any later time, on any tables (`later.db`) that still hold the records of the actor's
  -- keys, whatever else was written to them and whatever others commit meanwhile (`others'`), and it
  -- writes nothing itself: the tables are those of the others, and one metric counts the replay. The
  -- transactions that ran beside the first request deleted no record either.
  pub create_once :
      (others others' : Database → Database) (raw_key : Option Text) (w w' later : World)
      (response : InvoiceResponse)
      → Keeps env actor request_id dto w.db (others w.db)
      → create env actor request_id dto others raw_key w ≡ (ok response, w')
      → Keeps env actor request_id dto w'.db later.db
      → create (at env now random_uuid) actor request_id' dto others' raw_key later ≡ (
        ok response,
        record later {
          db = others' later.db;
          metrics = Metric.invoices "replayed" ∷ later.metrics;
        },
      )
  create_once others others' raw_key w w' later response keeps h kept =
      let (key, normal, has) =
        answered-HasRecord env actor request_id dto others raw_key w keeps h in
      replayed_lem (at env now random_uuid) actor request_id' dto others' raw_key key later response
        normal (record_later key w'.db later.db response has kept)

  differs_later :
      (dto₂ : CreateInvoiceDto)
      → request_fingerprint env dto ≢ request_fingerprint env dto₂
      → request_fingerprint (at env now random_uuid) dto
        ≢ request_fingerprint (at env now random_uuid) dto₂
  unfolding request_fingerprint
  differs_later dto₂ differs = differs

  -- Once `create` has answered a request well, a request with another fingerprint under the same key
  -- is refused as a conflict and writes nothing, at any later time and on any tables (`later.db`) that
  -- still hold the records of the actor's keys, whatever else was written to them. The transactions
  -- that ran beside the first request deleted no record either.
  pub create_other_refused :
      (dto₂ : CreateInvoiceDto) (others others' : Database → Database) (raw_key : Option Text)
      (w w' later : World) (response : InvoiceResponse)
      → Keeps env actor request_id dto w.db (others w.db)
      → create env actor request_id dto others raw_key w ≡ (ok response, w')
      → Keeps env actor request_id dto w'.db later.db
      → request_fingerprint env dto ≢ request_fingerprint env dto₂
      → create (at env now random_uuid) actor request_id' dto₂ others' raw_key later ≡ (
        err (conflict "Idempotency key was already used with a different request"),
        record later { db = others' later.db; metrics = Metric.invoices "failed" ∷ later.metrics },
      )
  create_other_refused dto₂ others others' raw_key w w' later response keeps h kept other =
      let (key, normal, has) =
        answered-HasRecord env actor request_id dto others raw_key w keeps h in
      refused_lem (at env now random_uuid) actor request_id' dto dto₂ others' raw_key key later
        response normal (record_later key w'.db later.db response has kept)
        (differs_later dto₂ other)

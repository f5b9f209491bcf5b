-- ===== src/Persistence/Database.antt =====
-- The database as the lists of its rows, the state that one request of the API reads and writes,
-- and the actions on it: reads, writes, exceptions, transactions.
use bf_techops.Prelude.{ℕ, ◌+◌, String, Bool, Option, List, ◌∷◌}
use bf_techops.Js.{Text, JsNumber}
use bf_techops.Failure.{Failure, Result, ok, err, reject_if, or_throw}
use bf_techops.Wire.{Uuid, Time, PaymentEventType}
use bf_techops.Persistence.Entities.{
  MerchantEntity, StoreEntity, InvoiceEntity, InvoiceLineEntity, IdempotencyRecordEntity,
  OutboxEventEntity, DeliveryAttemptEntity, PaymentEntity, RefundEntity,
  PaymentWebhookReceiptEntity, AuditEventEntity,
}

pub record Database : Type 0 where
  pub merchants : List MerchantEntity
  pub stores : List StoreEntity
  pub invoices : List InvoiceEntity
  pub invoice_lines : List InvoiceLineEntity
  pub idempotency_records : List IdempotencyRecordEntity
  pub outbox_events : List OutboxEventEntity
  pub delivery_attempts : List DeliveryAttemptEntity
  pub payments : List PaymentEntity
  pub refunds : List RefundEntity
  pub payment_webhook_receipts : List PaymentWebhookReceiptEntity
  pub audit_events : List AuditEventEntity

-- What the process takes from outside for one request: the clock, which stands still meanwhile, the
-- UUIDs that `randomUUID` draws, SHA-256 and HMAC-SHA-256 (of a key and a text) as a number for each
-- digest, the collation of the text columns as a number for each class of texts that the database
-- takes as equal, how a UUID is written, and what `Number(text)` returns.
pub record Env : Type 0 where
  pub now : Time
  pub random_uuid : ℕ → Uuid
  pub sha256 : Text → ℕ
  pub collation : Text → ℕ
  pub hmac_sha256 : Text → Text → ℕ
  pub uuid_text : Uuid → Text
  pub to_number : Text → JsNumber

-- The counters of TelemetryService that the services increment.
pub data Metric : Type 0 where
  invoices : String → Metric
  payment_webhooks : String → PaymentEventType → Metric

pub record World : Type 0 where
  pub db : Database
  pub open db use *
  pub drawn : ℕ
  pub metrics : List Metric

abbrev pub Action {ℓ} : Type ℓ → Type ℓ
Action A = World → Result A × World

abbrev pub continue {ℓ κ} :
    {A : Type ℓ} {B : Type κ} → Result A → (A → Action B) → World → Result B × World
continue (ok a) f w = f a w
continue (err e) f w = (err e, w)

infixl 5 ◌>>=◌ ◌>>◌
unfoldable pub ◌>>=◌ {ℓ κ} : {A : Type ℓ} {B : Type κ} → Action A → (A → Action B) → Action B
◌>>=◌ m f w = let (r, w') = m w in continue r f w'

abbrev pub ◌>>◌ {ℓ κ} : {A : Type ℓ} {B : Type κ} → Action A → Action B → Action B
m >> k = m >>= λ _. k

unfoldable pub pure {ℓ} : {A : Type ℓ} → A → Action A
pure a w = (ok a, w)

unfoldable pub throw {ℓ} : {A : Type ℓ} → Failure → Action A
throw e w = (err e, w)

-- A computation that reads and writes nothing.
unfoldable pub lift {ℓ} : {A : Type ℓ} → Result A → Action A
lift r w = (r, w)

unfoldable pub gets {ℓ} : {A : Type ℓ} → (World → A) → Action A
gets f w = (ok (f w), w)

-- A computation that reads, and may throw.
unfoldable pub attempt {ℓ} : {A : Type ℓ} → (World → Result A) → Action A
attempt f w = (f w, w)

-- `if (c) throw e`
unfoldable pub throw_if : Bool → Failure → Action (Unit {0})
unfolding reject_if
throw_if c e = lift (reject_if c e)

-- `if (!value) throw e`
unfoldable pub some_or_throw {ℓ} : {A : Type ℓ} → Option A → Failure → Action A
unfolding or_throw
some_or_throw o e = lift (or_throw o e)

unfoldable pub write : (Database → Database) → Action (Unit {0})
write f w = (ok tt, record w { db = f w.db })

unfoldable pub count : Metric → Action (Unit {0})
count m w = (ok tt, record w { metrics = m ∷ w.metrics })

-- `randomUUID()`
unfoldable pub draw : Env → Action Uuid
draw env w = (ok (env.random_uuid w.drawn), record w { drawn = w.drawn + 1 })

abbrev pub roll_back {ℓ} : {A : Type ℓ} → Database → Result A × World → Result A × World
roll_back before (ok a, w) = (ok a, w)
roll_back before (err e, w) = (err e, record w { db = before })

-- `dataSource.transaction(…)`: what the body wrote is lost if it throws.
unfoldable pub transaction {ℓ} : {A : Type ℓ} → Action A → Action A
transaction body w = roll_back w.db (body w)

-- A READ COMMITTED transaction in two parts: what others commit after the first part, which only
-- reads, is in the tables that the second part sees, and stays when the second part rolls back.
unfoldable pub transaction_read_committed {ℓ κ} :
    {A : Type ℓ} {B : Type κ} → (Database → Database) → Action A → (A → Action B) → Action B
transaction_read_committed others reads writes =
    reads >>= λ a. write others >> transaction (writes a)

abbrev pub recover {ℓ} : {A : Type ℓ} → (Failure → Action A) → Result A × World → Result A × World
recover handler (ok a, w) = (ok a, w)
recover handler (err e, w) = handler e w

-- `try { … } catch (error) { … }`
unfoldable pub try_catch {ℓ} : {A : Type ℓ} → Action A → (Failure → Action A) → Action A
try_catch body handler w = recover handler (body w)

-- ===== src/Invoices/Defs.antt =====
-- The methods of InvoiceService. `others` is what other transactions commit while a READ COMMITTED
-- transaction of this service is between its reads and its writes.
pub mod Rows
use bf_techops.Prelude.{
  ℕ, suc, ◌+◌, Bool, true, false, not, ◌&&◌, Option, none, some, List, [], ◌∷◌, map, ◌==◌,
  if◌then◌else◌,
}
use bf_techops.Prelude.Table.{find_one, update_where, count_where}
use bf_techops.Js.{Text, codes}
use bf_techops.Failure.{
  Failure, Result, ok, err, bad_request, unauthorized, forbidden, not_found, conflict, type_error,
  range_error, coded, dup_entry, out_of_range,
}
use bf_techops.Wire.{
  Uuid, InvoiceStatus, issued, ActorTokenPayload, CreateInvoiceDto, UpdateInvoiceStatusDto,
  InvoiceResponse,
}
use bf_techops.Persistence.Entities.{InvoiceEntity, IdempotencyRecordEntity}
use bf_techops.Persistence.Database.{
  Database, Env, Metric, World, Action, ◌>>=◌, ◌>>◌, pure, throw, lift, gets, attempt, throw_if,
  some_or_throw, write, count, draw, transaction_read_committed, try_catch,
}
use bf_techops.Persistence.Insert.{
  same_idempotency_key, insert_invoice, insert_invoice_lines, insert_outbox_event,
  insert_idempotency_record,
}
use bf_techops.Domain.Money.{CalculatedInvoice, calculate_invoice}
use bf_techops.Domain.Transition.{assert_invoice_transition}
use bf_techops.Domain.IdempotencyKey.{normalize_idempotency_key}
use bf_techops.MerchantScope.Defs.{authorized_merchant_ids, authorize_store}
use bf_techops.Audit.{record_audit, newest}
use Rows.{
  request_fingerprint, invoice_input, invoice_row, line_rows, issued_event, issued_response,
  idempotency_row, created_audit, status_event, status_audit, to_response,
}

-- `domainInput`: the errors of the domain's checks become 400.
abbrev pub domain_input {ℓ} : {A : Type ℓ} → Result A → Result A
domain_input (ok a) = ok a
domain_input (err (type_error m)) = err (bad_request m)
domain_input (err (range_error m)) = err (bad_request m)
domain_input (err e) = err e

abbrev pub is_duplicate_key : Failure → Bool
is_duplicate_key dup_entry = true
is_duplicate_key _ = false

abbrev pub operation : Text
operation = codes "invoice.create"

unfoldable pub find_invoice : Database → Uuid → Option InvoiceEntity
find_invoice db id = find_one (λ r. r.id == id) db.invoices

unfoldable pub find_idempotency : Env → Database → Uuid → Text → Option IdempotencyRecordEntity
find_idempotency env db actor key =
    find_one (same_idempotency_key env actor operation key) db.idempotency_records

module _ (env : Env) (actor : ActorTokenPayload) (request_id : Option Text)
    (dto : CreateInvoiceDto) where
  -- The transaction's body when there is no record under the key.
  unfoldable pub issue_invoice : Text → Action (InvoiceResponse × Bool)
  issue_invoice key = do
    store ← attempt (λ w. authorize_store w.db actor.actor_merchant_id dto.store_id)
    calculated ← lift (domain_input (calculate_invoice (invoice_input dto)))
    invoice_id ← draw env
    insert_invoice (invoice_row env actor dto store calculated invoice_id)
    rows ← line_rows env invoice_id 1 calculated.items
    insert_invoice_lines rows
    event_id ← draw env
    insert_outbox_event (issued_event env dto store calculated invoice_id event_id)
    let response = issued_response env dto store calculated invoice_id
    record_id ← draw env
    insert_idempotency_record env
        (idempotency_row env actor key (request_fingerprint env dto) response record_id)
    record_audit env (created_audit actor request_id dto store calculated invoice_id)
    pure (response, false)

  -- The record that the key has already: the same request again, or another one.
  unfoldable pub replay_or_conflict : IdempotencyRecordEntity → Action (InvoiceResponse × Bool)
  replay_or_conflict existing =
      if existing.request_hash == request_fingerprint env dto
      then pure (existing.response_body, true)
      else throw (conflict "Idempotency key was already used with a different request")

  unfoldable pub create_under_key :
      Text → Option IdempotencyRecordEntity → Action (InvoiceResponse × Bool)
  create_under_key key none = issue_invoice key
  create_under_key key (some existing) = replay_or_conflict existing

  abbrev pub outcome : Bool → Metric
  outcome replayed = Metric.invoices (if replayed then "replayed" else "created")

  -- The answer after ER_DUP_ENTRY: the record that the other transaction has committed.
  unfoldable pub after_race : Option IdempotencyRecordEntity → Action InvoiceResponse
  after_race none = throw (conflict "Concurrent idempotency-key conflict")
  after_race (some existing) =
      if existing.request_hash == request_fingerprint env dto
      then (count (Metric.invoices "replayed") >> pure existing.response_body)
      else throw (conflict "Concurrent idempotency-key conflict")

  unfoldable pub create_failed : Text → Failure → Action InvoiceResponse
  create_failed key e =
      if is_duplicate_key e
      then (gets (λ w. find_idempotency env w.db actor.actor_merchant_id key) >>= after_race)
      else (count (Metric.invoices "failed") >> throw e)

  unfoldable pub create : (Database → Database) → Option Text → Action InvoiceResponse
  create others raw_key = do
    key ← lift (domain_input (normalize_idempotency_key raw_key))
    try_catch
        (do
          result ←
              transaction_read_committed others
                (gets (λ w. find_idempotency env w.db actor.actor_merchant_id key))
                (create_under_key key)
          count (outcome result.1)
          pure result.0)
        (create_failed key)

-- `get`
unfoldable pub get_invoice : ActorTokenPayload → Uuid → Action InvoiceResponse
get_invoice actor invoice_id = do
  found ← gets (λ w. find_invoice w.db invoice_id)
  invoice ← some_or_throw found (not_found "Invoice not found")
  attempt (λ w. authorize_store w.db actor.actor_merchant_id invoice.store_id)
  pure (to_response invoice)

-- `list`
unfoldable pub list_invoices : Database → ActorTokenPayload → ℕ → List InvoiceResponse
list_invoices db actor limit = map to_response (
    newest (λ r. r.merchant_id) (λ r. r.created_at)
      (authorized_merchant_ids db actor.actor_merchant_id) limit db.invoices)

-- The domain's refusal of a status change becomes 409.
abbrev pub as_conflict : Result (Unit {0}) → Result (Unit {0})
as_conflict (ok u) = ok u
as_conflict (err e) = err (conflict "Invoice cannot transition")

abbrev pub at_version : Uuid → ℕ → InvoiceEntity → Bool
at_version id version r = r.id == id && r.version == version

module _ (env : Env) (actor : ActorTokenPayload) (invoice_id : Uuid) (request_id : Option Text)
    (dto : UpdateInvoiceStatusDto) where
  unfoldable pub transition_checks : Action InvoiceEntity
  transition_checks = do
    found ← gets (λ w. find_invoice w.db invoice_id)
    invoice ← some_or_throw found (not_found "Invoice not found")
    attempt (λ w. authorize_store w.db actor.actor_merchant_id invoice.store_id)
    lift (as_conflict (assert_invoice_transition invoice.status dto.status))
    throw_if (not (invoice.version == dto.expected_version))
        (conflict "Invoice was modified by another request; reload before retrying")
    pure invoice

  abbrev pub moved : InvoiceEntity → InvoiceEntity
  moved r = record r { status = dto.status; version = r.version + 1; updated_at = env.now }

  unfoldable pub transition_writes : InvoiceEntity → Action InvoiceResponse
  transition_writes invoice = do
    affected ← gets (λ w. count_where (at_version invoice_id dto.expected_version) w.invoices)
    write (λ db. record db {
      invoices = update_where (at_version invoice_id dto.expected_version) moved db.invoices;
    })
    throw_if (not (affected == 1)) (conflict "Concurrent invoice update detected")
    event_id ← draw env
    insert_outbox_event (status_event env invoice dto event_id)
    record_audit env (status_audit actor request_id invoice dto)
    pure (to_response (record invoice { status = dto.status; version = invoice.version + 1 }))

  unfoldable pub transition : (Database → Database) → Action InvoiceResponse
  transition others = transaction_read_committed others transition_checks transition_writes

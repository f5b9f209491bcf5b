-- ===== src/Payments/Defs.antt =====
-- The methods of PaymentService. The transaction of a webhook is SERIALIZABLE: it runs as if alone.
pub mod Rows
use bf_techops.Prelude.{
  ℕ, suc, ◌+◌, ◌*◌, ◌/◌, String, Bool, true, false, not, ◌&&◌, ◌||◌, Option, none, some, List, [],
  ◌∷◌, ltb, ◌==◌, if◌then◌else◌,
}
use bf_techops.Prelude.Table.{find_one, any_row, update_where, sum_where}
use bf_techops.Js.{Text, text_eq, JsNumber, nat}
use bf_techops.Failure.{
  Failure, Result, ok, err, bad_request, unauthorized, not_found, conflict, dup_entry,
}
use bf_techops.Wire.{
  Uuid, InvoiceStatus, issued, partially_paid, paid, partially_refunded, refunded,
  ActorTokenPayload, PaymentEventType, payment_captured, payment_refunded, PaymentWebhookDto,
  PaymentWebhookResponse,
}
use bf_techops.Persistence.Entities.{
  InvoiceEntity, PaymentEntity, PaymentStatus, PaymentWebhookReceiptEntity, RefundEntity,
}
use bf_techops.Persistence.Database.{
  Database, Env, Metric, World, Action, ◌>>=◌, ◌>>◌, pure, throw, gets, throw_if, some_or_throw,
  write, count, draw, transaction, try_catch,
}
use bf_techops.Persistence.Insert.{
  same_payment, same_refund, same_event, insert_payment, insert_refund, insert_receipt,
  insert_outbox_event,
}
use bf_techops.Config.{ApiConfig}
use bf_techops.Domain.Transition.{includes}
use bf_techops.Domain.Webhook.{verify_webhook_signature}
use bf_techops.MerchantScope.Defs.{authorized_merchant_ids}
use bf_techops.Audit.{record_audit, newest}
use bf_techops.Invoices.Defs.{find_invoice, is_duplicate_key}
use Rows.{
  duplicate_response, accepted_response, payment_row, refund_row, receipt_row, payment_event,
  capture_audit, refund_audit,
}

-- `SUM(payment.amount_minor)` and `SUM(payment.refunded_minor)` of an invoice
unfoldable pub captured_total : Database → Uuid → ℕ
captured_total db invoice_id =
    sum_where (λ p. p.invoice_id == invoice_id) (λ p. p.amount_minor) db.payments

unfoldable pub refunded_total : Database → Uuid → ℕ
refunded_total db invoice_id =
    sum_where (λ p. p.invoice_id == invoice_id) (λ p. p.refunded_minor) db.payments

-- `lockInvoice`
unfoldable pub lock_invoice : Uuid → Action InvoiceEntity
lock_invoice invoice_id = do
  found ← gets (λ w. find_invoice w.db invoice_id)
  some_or_throw found (not_found "Invoice not found")

abbrev pub with_status : Env → InvoiceStatus → InvoiceEntity → InvoiceEntity
with_status env status r = record r {
  status = status;
  version = r.version + 1;
  updated_at = env.now;
}

-- `UPDATE invoices SET status, version = version + 1 WHERE id`
abbrev pub set_invoice_status : Env → Uuid → InvoiceStatus → Database → Database
set_invoice_status env invoice_id status db = record db {
  invoices = update_where (λ r. r.id == invoice_id) (with_status env status) db.invoices;
}

abbrev pub with_refund : Env → ℕ → PaymentStatus → PaymentEntity → PaymentEntity
with_refund env refunded_minor status r = record r {
  refunded_minor = refunded_minor;
  status = status;
  version = r.version + 1;
  updated_at = env.now;
}

abbrev pub set_payment_refund : Env → PaymentEntity → ℕ → PaymentStatus → Database → Database
set_payment_refund env payment refunded_minor status db = record db {
  payments =
      update_where (λ r. r.id == payment.id && r.version == payment.version)
        (with_refund env refunded_minor status) db.payments;
}

-- The status of an invoice after a capture, and after a refund.
abbrev pub status_after_capture : ℕ → ℕ → InvoiceStatus
status_after_capture captured_sum total = if captured_sum == total then paid else partially_paid

abbrev pub status_after_refund : ℕ → ℕ → InvoiceStatus
status_after_refund refunded_sum captured_sum =
    if refunded_sum == captured_sum then refunded else partially_refunded

abbrev pub payment_status_after : ℕ → ℕ → PaymentStatus
payment_status_after refunded_sum amount =
    if refunded_sum == amount then PaymentStatus.refunded else PaymentStatus.partially_refunded

-- `!dto.providerRefundId`: missing, or the empty text
abbrev pub nonempty : Option Text → Option Text
nonempty none = none
nonempty (some []) = none
nonempty (some (c ∷ s)) = some (c ∷ s)

module _ (env : Env) (provider : Text) (dto : PaymentWebhookDto) (request_id : Option Text) where
  unfoldable pub find_payment : Database → Option PaymentEntity
  find_payment db = find_one (same_payment env provider dto.provider_payment_id) db.payments

  unfoldable pub emit : InvoiceEntity → String → InvoiceStatus → Action (Unit {0})
  emit invoice event_type status = do
    event_id ← draw env
    insert_outbox_event (payment_event env provider dto invoice event_type status event_id)

  -- The part of `capture` after the checks, for what was captured before.
  unfoldable pub record_capture : InvoiceEntity → ℕ → Action PaymentWebhookResponse
  record_capture invoice already_captured = do
    payment_id ← draw env
    insert_payment env (payment_row env provider dto invoice payment_id)
    let status = status_after_capture (already_captured + dto.amount_minor) invoice.total_minor
    write (set_invoice_status env invoice.id status)
    emit invoice "payment.captured.v1" status
    record_audit env (capture_audit env provider dto invoice request_id payment_id)
    pure (accepted_response dto invoice status payment_id)

  unfoldable pub capture : Action PaymentWebhookResponse
  capture = do
    invoice ← lock_invoice dto.invoice_id
    throw_if (not (includes (issued ∷ partially_paid ∷ []) invoice.status))
        (conflict "Invoice state cannot accept a captured payment")
    throw_if (not (text_eq invoice.currency dto.currency))
        (conflict "Payment currency does not match invoice")
    duplicate ← gets (λ w. any_row (same_payment env provider dto.provider_payment_id) w.payments)
    throw_if duplicate (conflict "Provider payment ID already exists")
    already_captured ← gets (λ w. captured_total w.db invoice.id)
    throw_if (ltb invoice.total_minor (already_captured + dto.amount_minor))
        (conflict "Captured payment would exceed the invoice total")
    record_capture invoice already_captured

  -- The part of `refund` after the checks.
  unfoldable pub record_refund :
      InvoiceEntity → PaymentEntity → Text → Action PaymentWebhookResponse
  record_refund invoice payment provider_refund_id = do
    refund_id ← draw env
    insert_refund env (refund_row env provider dto invoice payment provider_refund_id refund_id)
    let payment_refunded = payment.refunded_minor + dto.amount_minor
    write (
        set_payment_refund env payment payment_refunded
          (payment_status_after payment_refunded payment.amount_minor))
    total_captured ← gets (λ w. captured_total w.db invoice.id)
    total_refunded ← gets (λ w. refunded_total w.db invoice.id)
    let status = status_after_refund total_refunded total_captured
    write (set_invoice_status env invoice.id status)
    emit invoice "payment.refunded.v1" status
    record_audit env (refund_audit env provider dto invoice payment request_id refund_id)
    pure (accepted_response dto invoice status payment.id)

  unfoldable pub refund : Action PaymentWebhookResponse
  refund = do
    provider_refund_id ←
        some_or_throw (nonempty dto.provider_refund_id)
          (conflict "providerRefundId is required for refunds")
    found ← gets (λ w. find_payment w.db)
    payment ← some_or_throw found (not_found "Captured payment not found")
    invoice ← lock_invoice dto.invoice_id
    throw_if (not (payment.invoice_id == invoice.id))
        (conflict "Refund invoice does not match payment")
    throw_if (not (includes (paid ∷ partially_refunded ∷ []) invoice.status))
        (conflict "Invoice state cannot accept a refund")
    throw_if (not (text_eq payment.currency dto.currency))
        (conflict "Refund currency does not match payment")
    throw_if (ltb payment.amount_minor (payment.refunded_minor + dto.amount_minor))
        (conflict "Refund would exceed the captured payment amount")
    duplicate ← gets (λ w. any_row (same_refund env provider provider_refund_id) w.refunds)
    throw_if duplicate (conflict "Provider refund ID already exists")
    record_refund invoice payment provider_refund_id

  unfoldable pub apply_event : PaymentEventType → Action PaymentWebhookResponse
  apply_event payment_captured = capture
  apply_event payment_refunded = refund

  unfoldable pub find_receipt : Database → Option PaymentWebhookReceiptEntity
  find_receipt db =
      find_one (same_event env provider dto.provider_event_id) db.payment_webhook_receipts

  -- The transaction's body, by whether there is a receipt of the event.
  unfoldable pub accept_event :
      ℕ → Option PaymentWebhookReceiptEntity → Action PaymentWebhookResponse
  accept_event payload_hash (some receipt) = do
    throw_if (not (receipt.payload_hash == payload_hash))
        (conflict "Provider event ID was reused with a different payload")
    pure (duplicate_response dto)
  accept_event payload_hash none = do
    response ← apply_event dto.event_type
    receipt_id ← draw env
    insert_receipt env (receipt_row env provider dto payload_hash receipt_id)
    pure response

  abbrev pub counted : String → Metric
  counted outcome = Metric.payment_webhooks outcome dto.event_type

  abbrev pub rejected : Failure → Action PaymentWebhookResponse
  rejected e = count (counted "rejected") >> throw e

  unfoldable pub after_duplicate :
      ℕ → Failure → Option PaymentWebhookReceiptEntity → Action PaymentWebhookResponse
  after_duplicate payload_hash e none = rejected e
  after_duplicate payload_hash e (some receipt) =
      if receipt.payload_hash == payload_hash
      then (count (counted "duplicate") >> pure (duplicate_response dto))
      else rejected e

  unfoldable pub event_failed : ℕ → Failure → Action PaymentWebhookResponse
  event_failed payload_hash e =
      if is_duplicate_key e
      then (gets (λ w. find_receipt w.db) >>= after_duplicate payload_hash e)
      else rejected e

  -- The `try` block of `handleWebhook`, and its `catch`.
  unfoldable pub process_event : ℕ → Action PaymentWebhookResponse
  process_event payload_hash =
      try_catch
        (do
          response ← transaction (gets (λ w. find_receipt w.db) >>= accept_event payload_hash)
          count (counted (if response.duplicate then "duplicate" else "accepted"))
          pure response)
        (event_failed payload_hash)

  abbrev pub after_signature : Result Bool → Action (Unit {0})
  after_signature (ok checked) = pure tt
  after_signature (err e) =
      count (counted "signature_rejected")
      >> throw (unauthorized "Invalid payment webhook signature")

  -- More than 5 minutes ahead, or more than 90 days ago.
  abbrev pub outside_window : Bool
  outside_window =
      ltb (env.now + 5 * 60_000) dto.occurred_at
      || ltb (dto.occurred_at + 90 * 24 * 60 * 60_000) env.now

  unfoldable pub check_event_time : Action (Unit {0})
  check_event_time =
      if outside_window
      then (count (counted "invalid_event_time")
          >> throw (bad_request "Payment event time is outside the accepted window"))
      else pure tt

module _ (env : Env) (config : ApiConfig) (provider timestamp signature raw_body : Text)
    (dto : PaymentWebhookDto) (request_id : Option Text) where
  unfoldable pub handle_webhook : Action PaymentWebhookResponse
  handle_webhook = do
    throw_if (not (text_eq provider config.payment_provider))
        (not_found "Payment provider is not configured")
    after_signature env provider dto request_id (
        verify_webhook_signature env raw_body config.payment_webhook_secret
          (env.to_number timestamp) signature (env.now / 1000)
          (nat config.payment_webhook_tolerance_seconds))
    check_event_time env provider dto request_id
    process_event env provider dto request_id (env.sha256 raw_body)

-- `list`
unfoldable pub list_payments : Database → ActorTokenPayload → ℕ → List PaymentEntity
list_payments db actor limit =
    newest (λ r. r.merchant_id) (λ r. r.created_at)
      (authorized_merchant_ids db actor.actor_merchant_id) limit db.payments

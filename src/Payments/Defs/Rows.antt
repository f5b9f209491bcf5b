-- ===== src/Payments/Defs/Rows.antt =====
-- The rows that PaymentService inserts, and its responses.
use bf_techops.Prelude.{ℕ, String, false, true, none, some, Option}
use bf_techops.Js.{Text}
use bf_techops.Wire.{
  Uuid, InvoiceStatus, PaymentWebhookDto, PaymentWebhookResponse, payment_provider, captured,
  refund_made,
}
use bf_techops.Persistence.Entities.{
  InvoiceEntity, OutboxEventEntity, OutboxStatus, PaymentEntity, PaymentStatus, RefundEntity,
  PaymentWebhookReceiptEntity,
}
use bf_techops.Persistence.Database.{Env}
use bf_techops.Audit.{AuditRecordInput}

abbrev pub duplicate_response : PaymentWebhookDto → PaymentWebhookResponse
duplicate_response dto = record {
  provider_event_id = dto.provider_event_id;
  duplicate = true;
  invoice_id = none;
  invoice_status = none;
  payment_id = none;
}

abbrev pub accepted_response :
    PaymentWebhookDto → InvoiceEntity → InvoiceStatus → Uuid → PaymentWebhookResponse
accepted_response dto invoice status payment_id = record {
  provider_event_id = dto.provider_event_id;
  duplicate = false;
  invoice_id = some invoice.id;
  invoice_status = some status;
  payment_id = some payment_id;
}

module _ (env : Env) (provider : Text) (dto : PaymentWebhookDto) where
  abbrev pub payment_row : InvoiceEntity → Uuid → PaymentEntity
  payment_row invoice payment_id = record {
    id = payment_id;
    merchant_id = invoice.merchant_id;
    invoice_id = invoice.id;
    provider = provider;
    provider_payment_id = dto.provider_payment_id;
    amount_minor = dto.amount_minor;
    refunded_minor = 0;
    currency = dto.currency;
    status = PaymentStatus.captured;
    captured_at = dto.occurred_at;
    version = 1;
    created_at = env.now;
    updated_at = env.now;
  }

  abbrev pub refund_row : InvoiceEntity → PaymentEntity → Text → Uuid → RefundEntity
  refund_row invoice payment provider_refund_id refund_id = record {
    id = refund_id;
    merchant_id = invoice.merchant_id;
    payment_id = payment.id;
    provider = provider;
    provider_refund_id = provider_refund_id;
    amount_minor = dto.amount_minor;
    refunded_at = dto.occurred_at;
    created_at = env.now;
  }

  abbrev pub receipt_row : ℕ → Uuid → PaymentWebhookReceiptEntity
  receipt_row payload_hash id = record {
    id = id;
    provider = provider;
    provider_event_id = dto.provider_event_id;
    event_type = dto.event_type;
    payload_hash = payload_hash;
    received_at = env.now;
  }

  -- The event of `emit`.
  abbrev pub payment_event : InvoiceEntity → String → InvoiceStatus → Uuid → OutboxEventEntity
  payment_event invoice event_type status event_id = record {
    id = event_id;
    aggregate_type = "invoice";
    aggregate_id = invoice.id;
    merchant_id = invoice.merchant_id;
    event_type = event_type;
    payload = record {
      event_id = event_id;
      invoice_id = invoice.id;
      merchant_id = invoice.merchant_id;
      store_id = invoice.store_id;
      customer_name = invoice.customer_name;
      customer_contact = invoice.customer_contact;
      currency = invoice.currency;
      total_minor = invoice.total_minor;
      status = status;
      issued_at = invoice.issued_at;
      provider_event_id = some dto.provider_event_id;
      payment_amount_minor = some dto.amount_minor;
    };
    status = OutboxStatus.pending;
    attempts = 0;
    available_at = env.now;
    lock_until = none;
    published_at = none;
    last_error = none;
    created_at = env.now;
  }

  abbrev pub capture_audit : InvoiceEntity → Option Text → Uuid → AuditRecordInput
  capture_audit invoice request_id payment_id = record {
    merchant_id = invoice.merchant_id;
    actor_subject = payment_provider provider;
    action = "payment.captured";
    resource_type = "payment";
    resource_id = payment_id;
    request_id = request_id;
    details = some (captured invoice.id dto.provider_event_id dto.amount_minor dto.currency);
  }

  abbrev pub refund_audit : InvoiceEntity → PaymentEntity → Option Text → Uuid → AuditRecordInput
  refund_audit invoice payment request_id refund_id = record {
    merchant_id = invoice.merchant_id;
    actor_subject = payment_provider provider;
    action = "payment.refunded";
    resource_type = "refund";
    resource_id = refund_id;
    request_id = request_id;
    details =
        some
          (refund_made invoice.id payment.id dto.provider_event_id dto.amount_minor dto.currency);
  }

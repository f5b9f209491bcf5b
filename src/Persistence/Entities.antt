-- ===== src/Persistence/Entities.antt =====
-- packages/persistence/src/entities.ts: one record for each entity, one field for each column. A
-- relation (`@ManyToOne`, `@OneToMany`) has no field beside its key column.
use bf_techops.Prelude.{ℕ, String, Bool, Option}
use bf_techops.Js.{Text}
use bf_techops.Wire.{
  Uuid, Time, InvoiceStatus, InvoiceResponse, PaymentEventType, EventPayload, Subject, AuditDetails,
}

pub data OutboxStatus : Type 0 where
  pending processing published : OutboxStatus

pub data DeliveryStatus : Type 0 where
  succeeded retrying dead_lettered : DeliveryStatus

pub data PaymentStatus : Type 0 where
  captured partially_refunded refunded : PaymentStatus

pub record MerchantEntity : Type 0 where
  pub id : Uuid
  pub parent_merchant_id : Option Uuid
  pub name : Text
  pub active : Bool
  pub created_at : Time
  pub updated_at : Time

pub record StoreEntity : Type 0 where
  pub id : Uuid
  pub merchant_id : Uuid
  pub code : Text
  pub name : Text
  pub timezone : Text
  pub active : Bool
  pub created_at : Time

pub record InvoiceEntity : Type 0 where
  pub id : Uuid
  pub merchant_id : Uuid
  pub store_id : Uuid
  pub created_by : Subject
  pub customer_name : Text
  pub customer_contact : Text
  pub currency : Text
  pub subtotal_minor : ℕ
  pub discount_minor : ℕ
  pub tax_rate_basis_points : ℕ
  pub tax_minor : ℕ
  pub total_minor : ℕ
  pub status : InvoiceStatus
  pub issued_at : Time
  pub version : ℕ
  pub created_at : Time
  pub updated_at : Time

pub record InvoiceLineEntity : Type 0 where
  pub id : Uuid
  pub invoice_id : Uuid
  pub position : ℕ
  pub description : Text
  pub quantity : ℕ
  pub unit_price_minor : ℕ
  pub line_total_minor : ℕ

pub record IdempotencyRecordEntity : Type 0 where
  pub id : Uuid
  pub actor_merchant_id : Uuid
  pub operation : Text
  pub idempotency_key : Text
  pub request_hash : ℕ
  pub response_status : ℕ
  pub response_body : InvoiceResponse
  pub created_at : Time

pub record OutboxEventEntity : Type 0 where
  pub id : Uuid
  pub aggregate_type : String
  pub aggregate_id : Uuid
  pub merchant_id : Uuid
  pub event_type : String
  pub payload : EventPayload
  pub status : OutboxStatus
  pub attempts : ℕ
  pub available_at : Time
  pub lock_until : Option Time
  pub published_at : Option Time
  pub last_error : Option Text
  pub created_at : Time

pub record DeliveryAttemptEntity : Type 0 where
  pub id : ℕ
  pub event_id : Uuid
  pub attempt_number : ℕ
  pub status : DeliveryStatus
  pub provider_reference : Option Text
  pub error_code : Option Text
  pub error_message : Option Text
  pub created_at : Time

pub record PaymentEntity : Type 0 where
  pub id : Uuid
  pub merchant_id : Uuid
  pub invoice_id : Uuid
  pub provider : Text
  pub provider_payment_id : Text
  pub amount_minor : ℕ
  pub refunded_minor : ℕ
  pub currency : Text
  pub status : PaymentStatus
  pub captured_at : Time
  pub version : ℕ
  pub created_at : Time
  pub updated_at : Time

pub record RefundEntity : Type 0 where
  pub id : Uuid
  pub merchant_id : Uuid
  pub payment_id : Uuid
  pub provider : Text
  pub provider_refund_id : Text
  pub amount_minor : ℕ
  pub refunded_at : Time
  pub created_at : Time

pub record PaymentWebhookReceiptEntity : Type 0 where
  pub id : Uuid
  pub provider : Text
  pub provider_event_id : Text
  pub event_type : PaymentEventType
  pub payload_hash : ℕ
  pub received_at : Time

pub record AuditEventEntity : Type 0 where
  pub id : Uuid
  pub merchant_id : Uuid
  pub actor_subject : Subject
  pub action : String
  pub resource_type : String
  pub resource_id : Uuid
  pub request_id : Option Text
  pub details : AuditDetails
  pub created_at : Time

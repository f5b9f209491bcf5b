-- ===== src/Wire.antt =====
-- The data that requests, responses and events carry: packages/domain/src/index.d.ts, the DTO
-- classes of apps/api/src/invoices and apps/api/src/payments, and the payload of an event
-- (apps/worker/src/provider.ts). Identifiers (UUIDs) are only compared, so numbers stand for them.
-- Dates are milliseconds since the epoch. A DTO is as the validation pipe lets it through: its
-- integers are not negative and its optional numbers have their defaults.
use bf_techops.Prelude.{ℕ, Bool, Option, none, some, List}
use bf_techops.Js.{Text}

abbrev pub Uuid : Type 0
Uuid = ℕ

abbrev pub Time : Type 0
Time = ℕ

pub data InvoiceStatus : Type 0 where
  draft issued partially_paid paid partially_refunded refunded cancelled : InvoiceStatus

pub record ActorTokenPayload : Type 0 where
  pub actor_merchant_id : Uuid
  pub roles : List Text
  pub exp : ℕ
  pub subject : Option Text

pub record CreateInvoiceLineDto : Type 0 where
  pub description : Text
  pub quantity : ℕ
  pub unit_price_minor : ℕ

pub record CreateInvoiceDto : Type 0 where
  pub store_id : Uuid
  pub customer_name : Text
  pub customer_contact : Text
  pub currency : Text
  pub discount_minor : ℕ
  pub tax_rate_basis_points : ℕ
  pub items : List CreateInvoiceLineDto

pub record UpdateInvoiceStatusDto : Type 0 where
  pub status : InvoiceStatus
  pub expected_version : ℕ

pub record InvoiceResponse : Type 0 where
  pub id : Uuid
  pub store_id : Uuid
  pub status : InvoiceStatus
  pub currency : Text
  pub subtotal_minor : ℕ
  pub discount_minor : ℕ
  pub tax_minor : ℕ
  pub total_minor : ℕ
  pub issued_at : Time
  pub version : ℕ

pub data PaymentEventType : Type 0 where
  payment_captured payment_refunded : PaymentEventType

pub record PaymentWebhookDto : Type 0 where
  pub provider_event_id : Text
  pub event_type : PaymentEventType
  pub provider_payment_id : Text
  pub provider_refund_id : Option Text
  pub invoice_id : Uuid
  pub amount_minor : ℕ
  pub currency : Text
  pub occurred_at : Time

pub record PaymentWebhookResponse : Type 0 where
  pub provider_event_id : Text
  pub duplicate : Bool
  pub invoice_id : Option Uuid
  pub invoice_status : Option InvoiceStatus
  pub payment_id : Option Uuid

-- The payload of an event in the outbox; the last two fields are those of a payment event.
pub record EventPayload : Type 0 where
  pub event_id : Uuid
  pub invoice_id : Uuid
  pub merchant_id : Uuid
  pub store_id : Uuid
  pub customer_name : Text
  pub customer_contact : Text
  pub currency : Text
  pub total_minor : ℕ
  pub status : InvoiceStatus
  pub issued_at : Time
  pub provider_event_id : Option Text
  pub payment_amount_minor : Option ℕ

-- Who did it: `actor.subject ?? actor.actorMerchantId`, `payment-provider:${provider}`, or
-- `provisioner:${changeId}`.
pub data Subject : Type 0 where
  subject_named : Text → Subject
  subject_merchant : Uuid → Subject
  payment_provider : Text → Subject
  -- of scripts/provision-tenant.mjs
  provisioner : Text → Subject

abbrev pub subject_or_merchant : Option Text → Uuid → Subject
subject_or_merchant none merchant = subject_merchant merchant
subject_or_merchant (some s) merchant = subject_named s

abbrev pub actor_subject : ActorTokenPayload → Subject
actor_subject actor = subject_or_merchant actor.subject actor.actor_merchant_id

-- The `details` of the audit records that the services write.
pub data AuditDetails : Type 0 where
  invoice_created : Uuid → Text → ℕ → AuditDetails
  status_changed : InvoiceStatus → InvoiceStatus → ℕ → AuditDetails
  captured : Uuid → Text → ℕ → Text → AuditDetails
  refund_made : Uuid → Uuid → Text → ℕ → Text → AuditDetails
  tenant_provisioned : Uuid → Text → AuditDetails
  no_details : AuditDetails

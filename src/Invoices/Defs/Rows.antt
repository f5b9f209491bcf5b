-- ===== src/Invoices/Defs/Rows.antt =====
-- The rows and responses that InvoiceService builds, the fingerprint of a request, and the input of
-- the calculation.
use bf_techops.Prelude.{ℕ, ◌+◌, Option, none, some, List, [], ◌∷◌, map}
use bf_techops.Js.{Text, codes, trim, to_lower_case, nat}
use bf_techops.Wire.{
  Uuid, issued, ActorTokenPayload, CreateInvoiceLineDto, CreateInvoiceDto, UpdateInvoiceStatusDto,
  InvoiceResponse, actor_subject, invoice_created, status_changed,
}
use bf_techops.Persistence.Entities.{
  StoreEntity, InvoiceEntity, InvoiceLineEntity, IdempotencyRecordEntity, OutboxEventEntity,
  OutboxStatus,
}
use bf_techops.Persistence.Database.{Env, Action, ◌>>=◌, pure, draw}
use bf_techops.Domain.Money.{
  InvoiceInput, InvoiceLineInput, CalculatedInvoiceLine, CalculatedInvoice,
}
use bf_techops.Domain.StableJson.{
  Json, num, str, arr, obj, Items, nil, cons, end, field, stable_json,
}
use bf_techops.Audit.{AuditRecordInput}

abbrev pub item_json : CreateInvoiceLineDto → Json
item_json item = obj (
    field (codes "description") (str item.description) (
      field (codes "quantity") (num item.quantity)
        (field (codes "unitPriceMinor") (num item.unit_price_minor) end)))

abbrev pub items_json : List CreateInvoiceLineDto → Items
items_json [] = nil
items_json (item ∷ items) = cons (item_json item) (items_json items)

-- The request as the value that is hashed.
abbrev pub dto_json : Env → CreateInvoiceDto → Json
dto_json env dto = obj (
    field (codes "storeId") (str (env.uuid_text dto.store_id)) (
      field (codes "customerName") (str dto.customer_name) (
        field (codes "customerContact") (str dto.customer_contact) (
          field (codes "currency") (str dto.currency) (
            field (codes "discountMinor") (num dto.discount_minor) (
              field (codes "taxRateBasisPoints") (num dto.tax_rate_basis_points)
                (field (codes "items") (arr (items_json dto.items)) end)))))))

-- `requestFingerprint(dto)`
unfoldable pub request_fingerprint : Env → CreateInvoiceDto → ℕ
request_fingerprint env dto = env.sha256 (stable_json (dto_json env dto))

abbrev pub line_input : CreateInvoiceLineDto → InvoiceLineInput
line_input item = record {
  description = item.description;
  quantity = nat item.quantity;
  unit_price_minor = nat item.unit_price_minor;
}

abbrev pub invoice_input : CreateInvoiceDto → InvoiceInput
invoice_input dto = record {
  items = map line_input dto.items;
  discount_minor = nat dto.discount_minor;
  tax_rate_basis_points = nat dto.tax_rate_basis_points;
}

module _ (env : Env) (dto : CreateInvoiceDto) (store : StoreEntity)
    (calculated : CalculatedInvoice) where
  abbrev pub issued_event : Uuid → Uuid → OutboxEventEntity
  issued_event invoice_id event_id = record {
    id = event_id;
    aggregate_type = "invoice";
    aggregate_id = invoice_id;
    merchant_id = store.merchant_id;
    event_type = "invoice.issued.v1";
    payload = record {
      event_id = event_id;
      invoice_id = invoice_id;
      merchant_id = store.merchant_id;
      store_id = store.id;
      customer_name = trim dto.customer_name;
      customer_contact = to_lower_case dto.customer_contact;
      currency = dto.currency;
      total_minor = calculated.total_minor;
      status = issued;
      issued_at = env.now;
      provider_event_id = none;
      payment_amount_minor = none;
    };
    status = OutboxStatus.pending;
    attempts = 0;
    available_at = env.now;
    lock_until = none;
    published_at = none;
    last_error = none;
    created_at = env.now;
  }

  abbrev pub issued_response : Uuid → InvoiceResponse
  issued_response invoice_id = record {
    id = invoice_id;
    store_id = store.id;
    status = issued;
    currency = dto.currency;
    subtotal_minor = calculated.subtotal_minor;
    discount_minor = calculated.discount_minor;
    tax_minor = calculated.tax_minor;
    total_minor = calculated.total_minor;
    issued_at = env.now;
    version = 1;
  }

abbrev pub invoice_row :
    Env
    → ActorTokenPayload
    → CreateInvoiceDto
    → StoreEntity
    → CalculatedInvoice
    → Uuid
    → InvoiceEntity
invoice_row env actor dto store calculated invoice_id = record {
  id = invoice_id;
  merchant_id = store.merchant_id;
  store_id = store.id;
  created_by = actor_subject actor;
  customer_name = trim dto.customer_name;
  customer_contact = to_lower_case dto.customer_contact;
  currency = dto.currency;
  subtotal_minor = calculated.subtotal_minor;
  discount_minor = calculated.discount_minor;
  tax_rate_basis_points = calculated.tax_rate_basis_points;
  tax_minor = calculated.tax_minor;
  total_minor = calculated.total_minor;
  status = issued;
  issued_at = env.now;
  version = 1;
  created_at = env.now;
  updated_at = env.now;
}

-- The rows of the lines, from `position` on, each with a UUID of its own.
unfoldable pub line_rows :
    Env → Uuid → ℕ → List CalculatedInvoiceLine → Action (List InvoiceLineEntity)
line_rows env invoice_id position [] = pure []
line_rows env invoice_id position (item ∷ items) = do
  id ← draw env
  rows ← line_rows env invoice_id (position + 1) items
  pure (
      record {
        id = id;
        invoice_id = invoice_id;
        position = position;
        description = item.description;
        quantity = item.quantity;
        unit_price_minor = item.unit_price_minor;
        line_total_minor = item.line_total_minor;
      }
      ∷ rows)

abbrev pub idempotency_row :
    Env → ActorTokenPayload → Text → ℕ → InvoiceResponse → Uuid → IdempotencyRecordEntity
idempotency_row env actor key fingerprint response id = record {
  id = id;
  actor_merchant_id = actor.actor_merchant_id;
  operation = codes "invoice.create";
  idempotency_key = key;
  request_hash = fingerprint;
  response_status = 201;
  response_body = response;
  created_at = env.now;
}

abbrev pub created_audit :
    ActorTokenPayload
    → Option Text
    → CreateInvoiceDto
    → StoreEntity
    → CalculatedInvoice
    → Uuid
    → AuditRecordInput
created_audit actor request_id dto store calculated invoice_id = record {
  merchant_id = store.merchant_id;
  actor_subject = actor_subject actor;
  action = "invoice.created";
  resource_type = "invoice";
  resource_id = invoice_id;
  request_id = request_id;
  details = some (invoice_created store.id dto.currency calculated.total_minor);
}

abbrev pub status_event : Env → InvoiceEntity → UpdateInvoiceStatusDto → Uuid → OutboxEventEntity
status_event env invoice dto event_id = record {
  id = event_id;
  aggregate_type = "invoice";
  aggregate_id = invoice.id;
  merchant_id = invoice.merchant_id;
  event_type = "invoice.status-changed.v1";
  payload = record {
    event_id = event_id;
    invoice_id = invoice.id;
    merchant_id = invoice.merchant_id;
    store_id = invoice.store_id;
    customer_name = invoice.customer_name;
    customer_contact = invoice.customer_contact;
    currency = invoice.currency;
    total_minor = invoice.total_minor;
    status = dto.status;
    issued_at = invoice.issued_at;
    provider_event_id = none;
    payment_amount_minor = none;
  };
  status = OutboxStatus.pending;
  attempts = 0;
  available_at = env.now;
  lock_until = none;
  published_at = none;
  last_error = none;
  created_at = env.now;
}

abbrev pub status_audit :
    ActorTokenPayload → Option Text → InvoiceEntity → UpdateInvoiceStatusDto → AuditRecordInput
status_audit actor request_id invoice dto = record {
  merchant_id = invoice.merchant_id;
  actor_subject = actor_subject actor;
  action = "invoice.status_changed";
  resource_type = "invoice";
  resource_id = invoice.id;
  request_id = request_id;
  details = some (status_changed invoice.status dto.status dto.expected_version);
}

-- `toResponse`
unfoldable pub to_response : InvoiceEntity → InvoiceResponse
to_response invoice = record {
  id = invoice.id;
  store_id = invoice.store_id;
  status = invoice.status;
  currency = invoice.currency;
  subtotal_minor = invoice.subtotal_minor;
  discount_minor = invoice.discount_minor;
  tax_minor = invoice.tax_minor;
  total_minor = invoice.total_minor;
  issued_at = invoice.issued_at;
  version = invoice.version;
}

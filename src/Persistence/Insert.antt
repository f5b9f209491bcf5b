-- ===== src/Persistence/Insert.antt =====
-- The INSERT statements, with what the tables refuse (database/migrations): a number that its
-- unsigned column does not hold, and a second row with the key of a primary or a unique index. Text
-- columns are compared by the collation. Foreign keys and lengths of texts are not checked here.
use bf_techops.Prelude.{
  ℕ, ◌-◌, ◌^◌, Bool, true, ◌&&◌, ◌||◌, not, List, [], ◌∷◌, leb, ◌==◌, if◌then◌else◌,
}
use bf_techops.Prelude.Table.{any_row}
use bf_techops.Js.{Text}
use bf_techops.Failure.{Result, ok, err, dup_entry, out_of_range}
use bf_techops.Wire.{Uuid}
use bf_techops.Persistence.Entities.{
  InvoiceEntity, InvoiceLineEntity, IdempotencyRecordEntity, OutboxEventEntity, PaymentEntity,
  RefundEntity, PaymentWebhookReceiptEntity, AuditEventEntity,
}
use bf_techops.Persistence.Database.{Env, World, Action, ◌>>◌, pure}

-- `int unsigned` and `smallint unsigned`
abbrev pub max_int : ℕ
max_int = 2 ^ 32 - 1

abbrev pub max_smallint : ℕ
max_smallint = 2 ^ 16 - 1

-- The outcome of an INSERT: the columns are converted before the indexes are read.
unfoldable pub refusal : Bool → Bool → World → World → Result (Unit {0}) × World
refusal fits duplicate w w' =
    if not fits
    then (err out_of_range, w)
    else if duplicate
    then (err dup_entry, w)
    else (ok tt, w')

unfoldable pub invoice_fits : InvoiceEntity → Bool
invoice_fits r =
    leb r.subtotal_minor max_int
    && leb r.discount_minor max_int
    && leb r.tax_rate_basis_points max_smallint
    && leb r.tax_minor max_int
    && leb r.total_minor max_int

unfoldable pub insert_invoice : InvoiceEntity → Action (Unit {0})
insert_invoice row w =
    refusal (invoice_fits row) (any_row (λ r. r.id == row.id) w.invoices) w
      (record w { db = record w.db { invoices = row ∷ w.invoices } })

unfoldable pub line_fits : InvoiceLineEntity → Bool
line_fits r =
    leb r.position max_smallint
    && leb r.quantity max_smallint
    && leb r.unit_price_minor max_int
    && leb r.line_total_minor max_int

abbrev pub same_line : InvoiceLineEntity → InvoiceLineEntity → Bool
same_line row r = r.id == row.id || (r.invoice_id == row.invoice_id && r.position == row.position)

unfoldable pub insert_invoice_line : InvoiceLineEntity → Action (Unit {0})
insert_invoice_line row w =
    refusal (line_fits row) (any_row (same_line row) w.invoice_lines) w
      (record w { db = record w.db { invoice_lines = row ∷ w.invoice_lines } })

unfoldable pub insert_invoice_lines : List InvoiceLineEntity → Action (Unit {0})
insert_invoice_lines [] = pure tt
insert_invoice_lines (row ∷ rows) = insert_invoice_line row >> insert_invoice_lines rows

unfoldable pub insert_outbox_event : OutboxEventEntity → Action (Unit {0})
insert_outbox_event row w =
    refusal (leb row.attempts max_smallint) (any_row (λ r. r.id == row.id) w.outbox_events) w
      (record w { db = record w.db { outbox_events = row ∷ w.outbox_events } })

unfoldable pub insert_audit_event : AuditEventEntity → Action (Unit {0})
insert_audit_event row w =
    refusal true (any_row (λ r. r.id == row.id) w.audit_events) w
      (record w { db = record w.db { audit_events = row ∷ w.audit_events } })

module _ (env : Env) where
  -- equal under the collation of the column
  abbrev pub same_text : Text → Text → Bool
  same_text s t = env.collation s == env.collation t

  abbrev pub same_idempotency_key : Uuid → Text → Text → IdempotencyRecordEntity → Bool
  same_idempotency_key actor operation key r =
      r.actor_merchant_id == actor
      && same_text r.operation operation
      && same_text r.idempotency_key key

  unfoldable pub insert_idempotency_record : IdempotencyRecordEntity → Action (Unit {0})
  insert_idempotency_record row w =
      refusal (leb row.response_status max_smallint)
        (any_row
          (λ r.
            r.id == row.id
            || same_idempotency_key row.actor_merchant_id row.operation row.idempotency_key r)
          w.idempotency_records)
        w (record w { db = record w.db { idempotency_records = row ∷ w.idempotency_records } })

  abbrev pub same_payment : Text → Text → PaymentEntity → Bool
  same_payment provider payment_id r =
      same_text r.provider provider && same_text r.provider_payment_id payment_id

  unfoldable pub insert_payment : PaymentEntity → Action (Unit {0})
  insert_payment row w =
      refusal (leb row.amount_minor max_int && leb row.refunded_minor max_int)
        (any_row (λ r. r.id == row.id || same_payment row.provider row.provider_payment_id r)
          w.payments)
        w (record w { db = record w.db { payments = row ∷ w.payments } })

  abbrev pub same_refund : Text → Text → RefundEntity → Bool
  same_refund provider refund_id r =
      same_text r.provider provider && same_text r.provider_refund_id refund_id

  unfoldable pub insert_refund : RefundEntity → Action (Unit {0})
  insert_refund row w =
      refusal (leb row.amount_minor max_int)
        (any_row (λ r. r.id == row.id || same_refund row.provider row.provider_refund_id r)
          w.refunds)
        w (record w { db = record w.db { refunds = row ∷ w.refunds } })

  abbrev pub same_event : Text → Text → PaymentWebhookReceiptEntity → Bool
  same_event provider event_id r =
      same_text r.provider provider && same_text r.provider_event_id event_id

  unfoldable pub insert_receipt : PaymentWebhookReceiptEntity → Action (Unit {0})
  insert_receipt row w =
      refusal true
        (any_row (λ r. r.id == row.id || same_event row.provider row.provider_event_id r)
          w.payment_webhook_receipts)
        w
        (record w {
          db = record w.db { payment_webhook_receipts = row ∷ w.payment_webhook_receipts };
        })

-- ===== src/Worker/Retention.antt =====
-- apps/worker/src/main.ts: runRetention and purgeInBatches, what the worker deletes. A DELETE does
-- not fail here, and nobody else writes the tables between two of them.
pub mod Purge
pub mod Keeps
pub mod Replay
use bf_techops.Prelude.{
  ℕ, zero, suc, ◌+◌, ◌-◌, ◌*◌, Bool, not, ◌&&◌, List, map, ltb, ◌==◌, if◌then◌else◌,
}
use bf_techops.Prelude.Table.{any_row, delete_where, count_where}
use bf_techops.MerchantScope.Defs.{has}
use bf_techops.Wire.{Uuid, Time}
use bf_techops.Persistence.Entities.{
  OutboxEventEntity, OutboxStatus, DeliveryAttemptEntity, DeliveryStatus, IdempotencyRecordEntity,
  PaymentWebhookReceiptEntity,
}
use bf_techops.Persistence.Database.{Database}
use bf_techops.Worker.Config.{WorkerConfig}
use bf_techops.Worker.Batch.{batch}
use bf_techops.Worker.Relay.{is_published, is_settled, before, time_or_zero}

-- A table with the statement that purges it: the identifiers of its rows, the column that orders
-- them, and the condition.
module _ {ℓ} {A : Type ℓ} (key order : A → ℕ) (p : A → Bool) where
  -- The rows of one DELETE … WHERE id IN (SELECT … ORDER BY … LIMIT 1000).
  abbrev pub purged : List A → A → Bool
  purged rows r = has (map key (batch 1000 order p rows)) (key r)

  -- `affectedRows`
  unfoldable pub affected : List A → ℕ
  affected rows = count_where (purged rows) rows

  unfoldable pub purge : List A → List A
  purge rows = delete_where (purged rows) rows

  -- The loop of `purgeInBatches`, with the number of batches that it may still do.
  unfoldable pub purge_loop : ℕ → ℕ → List A → ℕ × List A
  purge_loop zero total rows = (total, rows)
  purge_loop (suc n) total rows =
      let rest = purge_loop n (total + affected rows) (purge rows) in
      if ltb (affected rows) 1000 then (total + affected rows, purge rows) else rest

  unfoldable pub purge_in_batches : List A → ℕ × List A
  purge_in_batches rows = purge_loop 20 0 rows

-- `new Date(Date.now() - days * 86_400_000)`, from the epoch on.
abbrev pub cutoff : Time → ℕ → Time
cutoff now days = now - days * 86_400_000

unfoldable pub old_event : Time → List DeliveryAttemptEntity → OutboxEventEntity → Bool
old_event outbox_cutoff attempts event =
    is_published event.status
    && before event.published_at outbox_cutoff
    && is_settled attempts event.id

-- A delivery attempt without its event (`LEFT JOIN … WHERE event.id IS NULL`).
unfoldable pub old_attempt : Time → List OutboxEventEntity → DeliveryAttemptEntity → Bool
old_attempt outbox_cutoff events delivery =
    not (any_row (λ event. event.id == delivery.event_id) events)
    && ltb delivery.created_at outbox_cutoff

unfoldable pub old_record : Time → IdempotencyRecordEntity → Bool
old_record idempotency_cutoff r = ltb r.created_at idempotency_cutoff

unfoldable pub old_receipt : Time → PaymentWebhookReceiptEntity → Bool
old_receipt webhook_cutoff r = ltb r.received_at webhook_cutoff

pub record Purged : Type 0 where
  pub outbox : ℕ
  pub delivery : ℕ
  pub idempotency : ℕ
  pub webhook_receipts : ℕ

abbrev pub purge_outbox : Time → Database → ℕ × List OutboxEventEntity
purge_outbox outbox_cutoff db =
    purge_in_batches (λ r. r.id) (λ r. time_or_zero r.published_at)
      (old_event outbox_cutoff db.delivery_attempts) db.outbox_events

abbrev pub purge_delivery :
    Time → List OutboxEventEntity → Database → ℕ × List DeliveryAttemptEntity
purge_delivery outbox_cutoff events db =
    purge_in_batches (λ r. r.id) (λ r. r.created_at) (old_attempt outbox_cutoff events)
      db.delivery_attempts

abbrev pub purge_idempotency : Time → Database → ℕ × List IdempotencyRecordEntity
purge_idempotency idempotency_cutoff db =
    purge_in_batches (λ r. r.id) (λ r. r.created_at) (old_record idempotency_cutoff)
      db.idempotency_records

abbrev pub purge_receipts : Time → Database → ℕ × List PaymentWebhookReceiptEntity
purge_receipts webhook_cutoff db =
    purge_in_batches (λ r. r.id) (λ r. r.received_at) (old_receipt webhook_cutoff)
      db.payment_webhook_receipts

-- `runRetention`: what it logs, and the tables that it leaves.
unfoldable pub run_retention : Time → WorkerConfig → Database → Purged × Database
run_retention now config db =
    let outbox_cutoff = cutoff now config.outbox_retention_days in
    let outbox = purge_outbox outbox_cutoff db in
    let delivery = purge_delivery outbox_cutoff outbox.1 db in
    let idempotency = purge_idempotency (cutoff now config.idempotency_retention_days) db in
    let receipts = purge_receipts (cutoff now config.webhook_receipt_retention_days) db in
    (
      record {
        outbox = outbox.0;
        delivery = delivery.0;
        idempotency = idempotency.0;
        webhook_receipts = receipts.0;
      },
      record db {
        outbox_events = outbox.1;
        delivery_attempts = delivery.1;
        idempotency_records = idempotency.1;
        payment_webhook_receipts = receipts.1;
      },
    )

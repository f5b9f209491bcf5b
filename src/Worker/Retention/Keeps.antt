-- ===== src/Worker/Retention/Keeps.antt =====
-- runRetention: what stays in the tables, and how it fits the checks of the webhook handler.
use bf_techops.Prelude.{
  ℕ, ◌+◌, ◌*◌, ◌≤◌, ◌≡◌, refl, Bool, true, false, not, ◌&&◌, List, ltb, ◌==◌, arith,
}
use bf_techops.Prelude.Table.{any_row}
use bf_techops.Prelude.Table.Unique.{Distinct}
use mathlib.Core.List.{Memᴰ}
use bf_techops.Wire.{Time}
use bf_techops.Persistence.Entities.{
  OutboxEventEntity, DeliveryAttemptEntity, IdempotencyRecordEntity, PaymentWebhookReceiptEntity,
}
use bf_techops.Persistence.Database.{Database}
use bf_techops.Worker.Config.{WorkerConfig}
use bf_techops.Worker.Relay.{is_published, is_settled, before}
use bf_techops.Worker.Retention.{
  cutoff, old_event, old_attempt, old_record, old_receipt, run_retention,
}
use bf_techops.Worker.Retention.Purge.{purge_in_batches-IsPurge}

-- The tables that are purged have distinct identifiers.
pub record HasKeys (db : Database) : Type 0 where
  pub events : Distinct (λ r. r.id) db.outbox_events
  pub attempts : Distinct (λ r. r.id) db.delivery_attempts
  pub records : Distinct (λ r. r.id) db.idempotency_records
  pub receipts : Distinct (λ r. r.id) db.payment_webhook_receipts

young : (now days t : ℕ) → now ≤ t + days * 86_400_000 → ltb t (cutoff now days) ≡ false
young now days t h = let span = days * 86_400_000 in ground arith

and_false_first : (a b c : Bool) → a ≡ false → (a && b && c) ≡ false
and_false_first a b c h = ground arith

and_false_last : (a b c : Bool) → c ≡ false → (a && b && c) ≡ false
and_false_last a b c h = ground arith

with_event : (a b : Bool) → a ≡ true → (not a && b) ≡ false
with_event a b h = ground arith

-- What a run of the retention leaves.
pub record IsKept (now : Time) (config : WorkerConfig) (db after : Database) : Type 0 where
  pub unpublished :
      (r : OutboxEventEntity)
      → Memᴰ r db.outbox_events
      → is_published r.status ≡ false
      → Memᴰ r after.outbox_events
  pub unsettled :
      (r : OutboxEventEntity)
      → Memᴰ r db.outbox_events
      → is_settled db.delivery_attempts r.id ≡ false
      → Memᴰ r after.outbox_events
  pub deliveries :
      (r : DeliveryAttemptEntity)
      → Memᴰ r db.delivery_attempts
      → any_row (λ event. event.id == r.event_id) after.outbox_events ≡ true
      → Memᴰ r after.delivery_attempts
  pub records :
      (r : IdempotencyRecordEntity)
      → Memᴰ r db.idempotency_records
      → now ≤ r.created_at + config.idempotency_retention_days * 86_400_000
      → Memᴰ r after.idempotency_records
  pub receipts :
      (r : PaymentWebhookReceiptEntity)
      → Memᴰ r db.payment_webhook_receipts
      → now ≤ r.received_at + config.webhook_receipt_retention_days * 86_400_000
      → Memᴰ r after.payment_webhook_receipts
  pub money : (after.payments ≡ db.payments) × (after.refunds ≡ db.refunds)
  pub invoices : (after.invoices ≡ db.invoices) × (after.audit_events ≡ db.audit_events)

module _ (outbox_cutoff : Time) (attempts : List DeliveryAttemptEntity)
    (r : OutboxEventEntity) where
  unpublished_stays : is_published r.status ≡ false → old_event outbox_cutoff attempts r ≡ false
  unfolding old_event
  unpublished_stays h =
      and_false_first (is_published r.status) (before r.published_at outbox_cutoff)
        (is_settled attempts r.id) h

  unsettled_stays : is_settled attempts r.id ≡ false → old_event outbox_cutoff attempts r ≡ false
  unfolding old_event
  unsettled_stays h =
      and_false_last (is_published r.status) (before r.published_at outbox_cutoff) _ h

delivery_stays :
    (outbox_cutoff : Time) (events : List OutboxEventEntity) (r : DeliveryAttemptEntity)
    → any_row (λ event. event.id == r.event_id) events ≡ true
    → old_attempt outbox_cutoff events r ≡ false
unfolding old_attempt
delivery_stays outbox_cutoff events r h = with_event _ (ltb r.created_at outbox_cutoff) h

record_stays :
    (now days : ℕ) (r : IdempotencyRecordEntity)
    → now ≤ r.created_at + days * 86_400_000
    → old_record (cutoff now days) r ≡ false
unfolding old_record
record_stays now days r h = young now days r.created_at h

receipt_stays :
    (now days : ℕ) (r : PaymentWebhookReceiptEntity)
    → now ≤ r.received_at + days * 86_400_000
    → old_receipt (cutoff now days) r ≡ false
unfolding old_receipt
receipt_stays now days r h = young now days r.received_at h

module _ (now : Time) (config : WorkerConfig) (db : Database) (keys : HasKeys db) where
  -- Where identifiers are distinct, the retention deletes no event that was not published or whose
  -- deliveries have not ended, no delivery attempt of an event that stays, and no idempotency record
  -- or webhook receipt that is not older than its retention; and it touches no money, no invoice and
  -- no audit event.
  pub run_retention_keeps : IsKept now config db (run_retention now config db).1
  unfolding run_retention
  run_retention_keeps = record {
    unpublished = λ r m h.
        (purge_in_batches-IsPurge _ _ _ db.outbox_events keys.events).keeps m
          (unpublished_stays _ db.delivery_attempts r h);
    unsettled = λ r m h.
        (purge_in_batches-IsPurge _ _ _ db.outbox_events keys.events).keeps m
          (unsettled_stays _ db.delivery_attempts r h);
    deliveries = λ r m h.
        (purge_in_batches-IsPurge _ _ _ db.delivery_attempts keys.attempts).keeps m
          (delivery_stays _ _ r h);
    records = λ r m h.
        (purge_in_batches-IsPurge _ _ _ db.idempotency_records keys.records).keeps m
          (record_stays now config.idempotency_retention_days r h);
    receipts = λ r m h.
        (purge_in_batches-IsPurge _ _ _ db.payment_webhook_receipts keys.receipts).keeps m
          (receipt_stays now config.webhook_receipt_retention_days r h);
    money = (refl, refl);
    invoices = (refl, refl);
  }

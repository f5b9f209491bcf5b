-- ===== src/Tests/WorkerTests.antt =====
-- The worker's deliveries and its retention.
use bf_techops.Prelude.{
  ◌+◌, ◌*◌, ◌≡◌, refl, sym, ◌∙◌, true, false, none, some, [], ◌∷◌, ◌++◌, ◌==◌, arith,
}
use bf_techops.Prelude.Table.{select, insert_asc, order_asc, count_where, any_row, delete_where}
use mathlib.Core.List.{Memᴰ}
use bf_techops.Js.{Text, codes}
use bf_techops.Failure.{ok}
use bf_techops.Wire.{payment_captured}
use bf_techops.Persistence.Entities.{PaymentWebhookReceiptEntity}
use bf_techops.Persistence.Database.{Database, Env}
use bf_techops.Payments.Defs.{handle_webhook}
use bf_techops.Worker.Batch.{batch}
use bf_techops.Worker.Fault.{Fault, Run, done, threw}
use bf_techops.Worker.Delivery.Provider.{DeliveryEnv, HttpAnswer, send, webhook_send}
use bf_techops.Worker.Delivery.{
  DeliveryWorld, JobRun, deliver, deliver_all, try_delivery, upsert, already_delivered,
  attempt_fits, success_values, error_code_of,
}
use bf_techops.Worker.Delivery.Once.{IsDelivered, times_sent, deliver_all-IsDelivered}
use bf_techops.Worker.Delivery.Attempt.{Delivered, deliver-Delivered}
use bf_techops.Worker.Retention.{
  purge_in_batches, old_receipt, run_retention, purge_loop, purge, affected,
}
use bf_techops.Worker.Retention.Purge.{IsPurge, purge_in_batches-IsPurge}
use bf_techops.Worker.Retention.Keeps.{HasKeys, IsKept, run_retention_keeps}
use bf_techops.Worker.Retention.Replay.{purged_event_refused}
use bf_techops.Tests.Fixtures.{env, config, db, world, signature, capture_dto}
use bf_techops.Tests.PaymentTests.{captures, captured_world, captured_response}
use bf_techops.Tests.RelayTests.{worker_config, refused, payload, first_event}

abbrev twice : Text → Text
twice s = s ++ s

abbrev answers : Run HttpAnswer → DeliveryEnv
answers answer = record {
  now = 100;
  uuid_text = λ id. id ∷ [];
  fetch = λ url key event. answer;
  refused = refused;
}

abbrev good_env : DeliveryEnv
good_env =
    answers
      (done record { ok = true; status_text = codes "200"; provider_request_id = some (codes "r") })

abbrev timeout : Fault
timeout = record { message = codes "timeout"; code = none }

abbrev failing_env : DeliveryEnv
failing_env = answers (threw timeout)

-- A reference of more than 160 units.
abbrev long_reference : Text
long_reference = twice (twice (twice (twice (codes "request-id-123"))))

abbrev long_env : DeliveryEnv
long_env = answers (
    done record { ok = true; status_text = codes "200"; provider_request_id = some long_reference })

abbrev job : JobRun
job = record { data_event = payload; attempts_made = 4; attempts = some 5 }

abbrev delivery_world : DeliveryWorld
delivery_world = record { db = db; next_id = 1; notified = []; dead_letters = []; deliveries = [] }

delivered :
    deliver good_env worker_config job delivery_world
    ≡ (done tt, (deliver good_env worker_config job delivery_world).1)
unfolding deliver try_delivery send webhook_send upsert already_delivered attempt_fits any_row
    success_values
delivered = refl

deliver_all-IsDelivered_example :
    IsDelivered 1 (
      deliver_all worker_config
        ((good_env, job) ∷ (failing_env, job) ∷ [])
        (deliver good_env worker_config job delivery_world).1)
    × (times_sent 1 (
          deliver_all worker_config
            ((good_env, job) ∷ (failing_env, job) ∷ [])
            (deliver good_env worker_config job delivery_world).1)
        ≡ times_sent 1 (deliver good_env worker_config job delivery_world).1)
deliver_all-IsDelivered_example =
    deliver_all-IsDelivered good_env worker_config job delivery_world
      (deliver good_env worker_config job delivery_world).1
      ((good_env, job) ∷ (failing_env, job) ∷ []) delivered

fresh : already_delivered 1 delivery_world.delivery_attempts ≡ false
unfolding already_delivered any_row
fresh = refl

takes : send long_env worker_config payload ≡ done long_reference
unfolding send webhook_send
takes = refl

done_not_threw {ℓ κ} :
    {A : Type ℓ} {B : Type κ} {a : A} {fault : Fault} → ◌≡◌ {A = Run A} (done a) (threw fault) → B
done_not_threw h = cc

-- The server takes the event and answers with a reference that its column does not hold.
deliver-Delivered_example : Delivered long_env worker_config job delivery_world
unfolding error_code_of
deliver-Delivered_example =
    deliver-Delivered long_env worker_config job delivery_world fresh (omega arith) (omega arith)
      λ fault h. done_not_threw (sym takes ∙ h)

abbrev old : PaymentWebhookReceiptEntity
old = record {
  id = 70;
  provider = codes "pay";
  provider_event_id = codes "e1";
  event_type = payment_captured;
  payload_hash = 7;
  received_at = 10_000_000_000;
}

abbrev young : PaymentWebhookReceiptEntity
young = record old { id = 71; received_at = 50_000_000_000 }

abbrev receipts_db : Database
receipts_db = record db {
  payment_webhook_receipts = young ∷ old ∷ [];
  outbox_events = first_event ∷ [];
}

purge_in_batches-IsPurge_example :
    IsPurge
      (λ (r : PaymentWebhookReceiptEntity). r.id)
      (λ r. r.received_at)
      (old_receipt 20_000_000_000)
      20
      0
      (young ∷ old ∷ [])
      (purge_in_batches
        (λ (r : PaymentWebhookReceiptEntity). r.id)
        (λ r. r.received_at)
        (old_receipt 20_000_000_000)
        (young ∷ old ∷ []))
unfolding any_row
purge_in_batches-IsPurge_example =
    purge_in_batches-IsPurge (λ r. r.id) (λ r. r.received_at) (old_receipt 20_000_000_000)
      (young ∷ old ∷ []) (refl, (refl, tt))

receipts_db-HasKeys : HasKeys receipts_db
unfolding any_row
receipts_db-HasKeys = record {
  events = (refl, tt);
  attempts = tt;
  records = tt;
  receipts = (refl, (refl, tt));
}

run_retention_keeps_example :
    IsKept 50_000_000_000 worker_config receipts_db
      (run_retention 50_000_000_000 worker_config receipts_db).1
run_retention_keeps_example =
    run_retention_keeps 50_000_000_000 worker_config receipts_db receipts_db-HasKeys

-- 401 days after the capture.
abbrev late_env : Env
late_env = record env { now = 10_000_000_000 + 401 * 86_400_000 }

receipt_gone :
    any_row
      (λ s. s.id == 70)
      (run_retention late_env.now worker_config receipts_db).1.payment_webhook_receipts
    ≡ false
unfolding run_retention purge_in_batches purge_loop purge affected batch select insert_asc order_asc
    delete_where count_where any_row old_receipt
receipt_gone = refl

purged_event_refused_example : ¬ (
    handle_webhook late_env config
      (codes "pay")
      (codes "10000000")
      signature
      (codes "{}")
      capture_dto
      none
      captured_world
    ≡ (ok captured_response, captured_world))
purged_event_refused_example =
    purged_event_refused late_env.now worker_config receipts_db receipts_db-HasKeys env late_env
      config config (codes "pay") (codes "10000000") signature (codes "{}") (codes "pay")
      (codes "10000000") signature (codes "{}") capture_dto capture_dto none none world
      captured_world captured_world captured_world captured_response captured_response old
      (omega arith) captures refl (Memᴰ.tail (Memᴰ.head refl)) receipt_gone (omega arith) refl

-- ===== src/Tests/PaymentTests.antt =====
-- Webhooks of payments and refunds.
use bf_techops.Domain.Webhook.Laws.{IsSigned}
use bf_techops.Payments.Admission.{handle_webhook_admits}
use bf_techops.Prelude.{true, ◌+◌, ◌*◌, ◌/◌, ◌≤◌, ◌≡◌, refl, false, arith, none, some, ◌∷◌, []}
use bf_techops.Prelude.Table.{find_one, any_row, update_where, sum_where}
use bf_techops.Failure.{ok, err, Result, reject_if, or_throw, conflict}
use bf_techops.Domain.StableJson.{decimal}
use bf_techops.Domain.Money.{require_integer}
use bf_techops.Js.{codes, text_eq, to_lower_case}
use bf_techops.Failure
use bf_techops.Persistence.Database
use bf_techops.Persistence.Database.{
  World, Action, pure, throw, lift, gets, attempt, throw_if, some_or_throw, write, count, draw,
  transaction, try_catch, Metric,
}
use bf_techops.Persistence.Insert.{
  refusal, insert_payment, insert_refund, insert_receipt, insert_outbox_event, insert_audit_event,
}
use bf_techops.Payments.Defs.Rows.{duplicate_response}
use bf_techops.Payments.Atomicity.{handle_webhook_atomic}
use bf_techops.Payments.Replay.{at, KeepsReceipt, handle_webhook_once}
use bf_techops.Payments.Webhook.{Admitted}
use bf_techops.Payments.Sound.{IsSound}
use bf_techops.Payments.Money.{handled-IsSound, handle_webhook_keeps_IsSound}
use bf_techops.Payments.Status.{Stepped, handle_webhook-Stepped}
use bf_techops.Payments.Money.Captures.{Settled, capture_settles}
use bf_techops.Payments.Money.Refunds.{Reversed, refund_settles}
use bf_techops.Wire.{
  paid, partially_refunded, payment_captured, payment_refunded, PaymentWebhookDto,
  PaymentWebhookResponse,
}
use bf_techops.Audit.{record_audit}
use bf_techops.Invoices.Defs.{find_invoice}
use bf_techops.Domain.Webhook.{
  verify_webhook_signature, hex_digest, create_webhook_signature, constant_time_equal,
  validate_token_secret,
}
use bf_techops.Payments.Defs.{
  handle_webhook, captured_total, refunded_total, lock_invoice, find_payment, emit, record_capture,
  capture, record_refund, refund, apply_event, find_receipt, accept_event, after_duplicate,
  event_failed, process_event, check_event_time,
}
use bf_techops.Tests.Fixtures.{env, config, signature, world, capture_dto}

abbrev pub deliver_webhook : PaymentWebhookDto → Action PaymentWebhookResponse
deliver_webhook dto =
    handle_webhook env config (codes "pay") (codes "10000000") signature (codes "{}") dto none

abbrev pub captured_world : World
captured_world = (deliver_webhook capture_dto world).1

abbrev pub captured_response : PaymentWebhookResponse
captured_response = record {
  provider_event_id = codes "e1";
  duplicate = false;
  invoice_id = some 50;
  invoice_status = some paid;
  payment_id = some 1000;
}

abbrev excess_dto : PaymentWebhookDto
excess_dto = record capture_dto { amount_minor = 1181 }

abbrev rejected_world : World
rejected_world = (deliver_webhook excess_dto world).1

pub captures : deliver_webhook capture_dto world ≡ (ok captured_response, captured_world)
unfolding handle_webhook verify_webhook_signature create_webhook_signature constant_time_equal
    validate_token_secret require_integer text_eq to_lower_case hex_digest decimal Failure.◌>>=◌
    reject_if or_throw check_event_time process_event accept_event capture lock_invoice find_invoice
    captured_total record_capture emit record_audit apply_event find_receipt Database.◌>>=◌ pure
    throw lift gets attempt throw_if some_or_throw write count draw transaction try_catch refusal
    insert_payment insert_receipt insert_outbox_event insert_audit_event find_one any_row
    update_where sum_where
captures = refl

exceeds :
    deliver_webhook excess_dto world
    ≡ (err (conflict "Captured payment would exceed the invoice total"), rejected_world)
unfolding handle_webhook verify_webhook_signature create_webhook_signature constant_time_equal
    validate_token_secret require_integer text_eq to_lower_case hex_digest decimal Failure.◌>>=◌
    reject_if or_throw check_event_time process_event accept_event capture lock_invoice find_invoice
    captured_total record_capture emit record_audit apply_event find_receipt Database.◌>>=◌ pure
    throw lift gets attempt throw_if some_or_throw write count draw transaction try_catch refusal
    insert_payment insert_receipt insert_outbox_event insert_audit_event find_one any_row
    update_where sum_where after_duplicate event_failed
exceeds = refl

handle_webhook_atomic_example : rejected_world.db ≡ world.db
handle_webhook_atomic_example =
    handle_webhook_atomic env config (codes "pay") (codes "10000000") signature (codes "{}")
      excess_dto none world rejected_world _ exceeds

-- A minute later, with another request's identifier.
admitted_again :
    Admitted
      (at env 10_000_060_000 (λ n. n))
      config
      (codes "pay")
      (codes "10000000")
      signature
      (codes "{}")
      capture_dto
      (some (codes "r2"))
unfolding verify_webhook_signature create_webhook_signature constant_time_equal
    validate_token_secret require_integer text_eq to_lower_case hex_digest decimal Failure.◌>>=◌
    reject_if
admitted_again = record { configured = refl; checked = _; signed = refl; in_window = refl }

-- The state later, when the trail was archived.
abbrev later_world : World
later_world = record captured_world { db = record captured_world.db { audit_events = [] } }

kept_receipt : KeepsReceipt env (codes "pay") capture_dto captured_world.db later_world.db
unfolding find_receipt
kept_receipt r found = found

handle_webhook_once_example :
    handle_webhook
      (at env 10_000_060_000 (λ n. n))
      config
      (codes "pay")
      (codes "10000000")
      signature
      (codes "{}")
      capture_dto
      (some (codes "r2"))
      later_world
    ≡ (
      ok (duplicate_response capture_dto),
      record later_world {
        metrics = Metric.payment_webhooks "duplicate" payment_captured ∷ captured_world.metrics;
      },
    )
handle_webhook_once_example =
    handle_webhook_once env config (codes "pay") (codes "10000000") signature (codes "{}")
      capture_dto none world captured_world later_world captured_response 10_000_060_000 (λ n. n)
      (codes "10000000") signature (some (codes "r2")) captures kept_receipt admitted_again

world-IsSound : IsSound world.db
unfolding captured_total sum_where
world-IsSound = record {
  distinct = tt;
  covered = λ id r found. omega arith;
  payments_booked = tt;
  owned = tt;
}

handle_webhook_keeps_IsSound_example : IsSound captured_world.db
handle_webhook_keeps_IsSound_example =
    handle_webhook_keeps_IsSound env config (codes "pay") (codes "10000000") signature (codes "{}")
      capture_dto none world captured_world (ok captured_response) world-IsSound captures

unseen : find_receipt env (codes "pay") capture_dto none world.db ≡ none
unfolding find_receipt find_one
unseen = refl

capture_settles_example : Settled env (codes "pay") capture_dto none world.db captured_world.db
capture_settles_example =
    capture_settles env config (codes "pay") (codes "10000000") signature (codes "{}") capture_dto
      none world captured_world captured_response refl unseen captures

-- A refund of a part of that payment, by an event of its own.
abbrev refund_dto : PaymentWebhookDto
refund_dto = record capture_dto {
  provider_event_id = codes "e2";
  event_type = payment_refunded;
  provider_refund_id = some (codes "r1");
  amount_minor = 180;
}

abbrev refunded_world : World
refunded_world = (deliver_webhook refund_dto captured_world).1

abbrev refunded_response : PaymentWebhookResponse
refunded_response = record captured_response {
  provider_event_id = codes "e2";
  invoice_status = some partially_refunded;
}

refunds : deliver_webhook refund_dto captured_world ≡ (ok refunded_response, refunded_world)
unfolding handle_webhook verify_webhook_signature create_webhook_signature constant_time_equal
    validate_token_secret require_integer text_eq to_lower_case hex_digest decimal Failure.◌>>=◌
    reject_if or_throw check_event_time process_event accept_event capture lock_invoice find_invoice
    captured_total record_capture emit record_audit apply_event find_receipt Database.◌>>=◌ pure
    throw lift gets attempt throw_if some_or_throw write count draw transaction try_catch refusal
    insert_payment insert_receipt insert_outbox_event insert_audit_event find_one any_row
    update_where sum_where find_payment refund record_refund insert_refund refunded_total
refunds = refl

unseen_refund : find_receipt env (codes "pay") refund_dto none captured_world.db ≡ none
unfolding handle_webhook verify_webhook_signature create_webhook_signature constant_time_equal
    validate_token_secret require_integer text_eq to_lower_case hex_digest decimal Failure.◌>>=◌
    reject_if or_throw check_event_time process_event accept_event capture lock_invoice find_invoice
    captured_total record_capture emit record_audit apply_event find_receipt Database.◌>>=◌ pure
    throw lift gets attempt throw_if some_or_throw write count draw transaction try_catch refusal
    insert_payment insert_receipt insert_outbox_event insert_audit_event find_one any_row
    update_where sum_where
unseen_refund = refl

captured_world-IsSound : IsSound captured_world.db
captured_world-IsSound =
    handled-IsSound env config (codes "pay") (codes "10000000") signature (codes "{}") capture_dto
      none world (ok captured_response) world-IsSound captures

refund_settles_example :
    Reversed env (codes "pay") refund_dto none captured_world.db refunded_world.db
refund_settles_example =
    refund_settles env config (codes "pay") (codes "10000000") signature (codes "{}") refund_dto
      none captured_world refunded_world refunded_response refl captured_world-IsSound unseen_refund
      refunds

handle_webhook_admits_example :
    (text_eq (codes "pay") config.payment_provider ≡ true)
    × IsSigned env
        (codes "{}")
        config.payment_webhook_secret
        (env.to_number (codes "10000000"))
        signature
        (env.now / 1000)
        300
    × (10_000_000_000 ≤ env.now + 5 * 60_000)
    × (env.now ≤ 10_000_000_000 + 90 * 24 * 60 * 60_000)
handle_webhook_admits_example =
    handle_webhook_admits env config (codes "pay") (codes "10000000") signature (codes "{}")
      capture_dto none world captured_world captured_response captures

handle_webhook-Stepped_example : Stepped world.db captured_world.db
handle_webhook-Stepped_example =
    handle_webhook-Stepped env config (codes "pay") (codes "10000000") signature (codes "{}")
      capture_dto none world captured_world (ok captured_response) captures

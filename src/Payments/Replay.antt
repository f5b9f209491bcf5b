-- ===== src/Payments/Replay.antt =====
-- `handleWebhook` on an event that the provider delivers again.
use bf_techops.Prelude.{ℕ, ◌≡◌, refl, ◌∙◌, true, Option, none, some, ◌∷◌}
use bf_techops.Js.{Text}
use bf_techops.Failure.{ok, reject_if}
use bf_techops.Wire.{Uuid, Time, PaymentWebhookDto, PaymentWebhookResponse}
use bf_techops.Persistence.Entities.{PaymentWebhookReceiptEntity}
use bf_techops.Persistence.Database.{Database, Metric, Env, World, ◌>>=◌, pure, lift, throw_if}
use bf_techops.Config.{ApiConfig}
use bf_techops.Payments.Defs.{process_event, check_event_time, handle_webhook, find_receipt}
use bf_techops.Payments.Webhook.{
  Admitted, HasReceipt, handle_webhook-ok, process_event-HasReceipt, process_event-replay,
}

module _ (env : Env) (config : ApiConfig) (provider timestamp signature raw_body : Text)
    (dto : PaymentWebhookDto) (request_id : Option Text) where
  admitted_lem :
      (w : World)
      → Admitted env config provider timestamp signature raw_body dto request_id
      → handle_webhook env config provider timestamp signature raw_body dto request_id w
        ≡ process_event env provider dto request_id (env.sha256 raw_body) w
  unfolding handle_webhook ◌>>=◌ pure throw_if lift reject_if check_event_time
  admitted_lem w a = rw a.configured (rw a.signed (rw a.in_window refl))

-- The environment at another time, with other UUIDs to come; the functions stay.
abbrev pub at : Env → Time → (ℕ → Uuid) → Env
at env now random_uuid = record env { now = now; random_uuid = random_uuid }

-- The receipts of this event that the first tables hold are held by the second.
abbrev pub KeepsReceipt : Env → Text → PaymentWebhookDto → Database → Database → Type 0
KeepsReceipt env provider dto db later_db =
    (r : PaymentWebhookReceiptEntity)
    → find_receipt env provider dto none db ≡ some r
    → find_receipt env provider dto none later_db ≡ some r

module _ (env : Env) (config : ApiConfig) (provider timestamp signature raw_body : Text)
    (dto : PaymentWebhookDto) (request_id : Option Text) where
  receipt_later :
      (now : Time) (random_uuid : ℕ → Uuid) (request_id' : Option Text) (db db' : Database)
      → HasReceipt env provider dto request_id (env.sha256 raw_body) db
      → KeepsReceipt env provider dto db db'
      → HasReceipt (at env now random_uuid) provider dto request_id' (env.sha256 raw_body) db'
  unfolding find_receipt
  receipt_later now random_uuid request_id' db db' (receipt, seen, same) keeps =
      (receipt, keeps receipt seen, same)

  -- Once a webhook has been answered well, every later delivery of the same event with the same body
  -- (at any time, on any tables that still hold the event's receipt, whatever else was written to
  -- them, with any timestamp, signature and request identifier) that passes the checks of the
  -- provider, of the signature and of the event's time is answered as a duplicate; of the whole state
  -- only the duplicate's metric changes: no table, so the money of an event is counted once.
  pub handle_webhook_once :
      (w w' later : World) (response : PaymentWebhookResponse) (now : Time) (random_uuid : ℕ → Uuid)
      (timestamp' signature' : Text) (request_id' : Option Text)
      → handle_webhook env config provider timestamp signature raw_body dto request_id w
        ≡ (ok response, w')
      → KeepsReceipt env provider dto w'.db later.db
      → Admitted
          (at env now random_uuid)
          config
          provider
          timestamp'
          signature'
          raw_body
          dto
          request_id'
      → handle_webhook
          (at env now random_uuid)
          config
          provider
          timestamp'
          signature'
          raw_body
          dto
          request_id'
          later
        ≡ (
          ok (record {
            provider_event_id = dto.provider_event_id;
            duplicate = true;
            invoice_id = none;
            invoice_status = none;
            payment_id = none;
          }),
          record later {
            metrics = Metric.payment_webhooks "duplicate" dto.event_type ∷ later.metrics;
          },
        )
  handle_webhook_once w w' later response now random_uuid timestamp' signature' request_id' h keeps
        admitted =
      let processed =
        (handle_webhook-ok env config provider timestamp signature raw_body dto request_id w h).1 in
      let receipt =
        process_event-HasReceipt env provider dto request_id (env.sha256 raw_body) w processed in
      admitted_lem (at env now random_uuid) config provider timestamp' signature' raw_body dto
        request_id' later admitted
      ∙ process_event-replay (at env now random_uuid) provider dto request_id' (env.sha256 raw_body)
          later (receipt_later now random_uuid request_id' w'.db later.db receipt keeps)

-- ===== src/Payments/Admission.antt =====
-- The checks of `handleWebhook` before the event is looked at.
use bf_techops.Prelude.{ℕ, ◌+◌, ◌*◌, ◌/◌, ◌≤◌, ◌≡◌, true, false, ◌||◌, ltb, Option, arith}
use bf_techops.Js.{Text, text_eq}
use bf_techops.Failure.{ok}
use bf_techops.Wire.{PaymentWebhookDto, PaymentWebhookResponse}
use bf_techops.Persistence.Database.{Env, World}
use bf_techops.Config.{ApiConfig}
use bf_techops.Domain.Webhook.Laws.{IsSigned, verify_webhook_signature-IsSigned}
use bf_techops.Payments.Defs.{handle_webhook}
use bf_techops.Payments.Webhook.{handle_webhook-ok}

window :
    (occurred now : ℕ)
    → (ltb (now + 300_000) occurred || ltb (occurred + 7_776_000_000) now) ≡ false
    → (occurred ≤ now + 300_000) × (now ≤ occurred + 7_776_000_000)
window occurred now h = ground arith

module _ (env : Env) (config : ApiConfig) (provider timestamp signature raw_body : Text)
    (dto : PaymentWebhookDto) (request_id : Option Text) where
  -- A webhook is answered well only if it is for the configured provider, its timestamp is within the
  -- configured tolerance of the clock, its signature is the HMAC of timestamp and body under the
  -- configured secret (letters in lower case, compared by SHA-256), and its event is at most 5 minutes
  -- ahead and at most 90 days old.
  pub handle_webhook_admits :
      (w w' : World) (response : PaymentWebhookResponse)
      → handle_webhook env config provider timestamp signature raw_body dto request_id w
        ≡ (ok response, w')
      → (text_eq provider config.payment_provider ≡ true)
        × IsSigned env raw_body config.payment_webhook_secret
            (env.to_number timestamp)
            signature
            (env.now / 1000)
            config.payment_webhook_tolerance_seconds
        × (dto.occurred_at ≤ env.now + 5 * 60_000)
        × (env.now ≤ dto.occurred_at + 90 * 24 * 60 * 60_000)
  handle_webhook_admits w w' response h =
      let a =
        (handle_webhook-ok env config provider timestamp signature raw_body dto request_id w h).0 in
      (
        a.configured,
        verify_webhook_signature-IsSigned env raw_body config.payment_webhook_secret
            (env.to_number timestamp) signature (env.now / 1000)
            config.payment_webhook_tolerance_seconds a.checked a.signed,
        (window dto.occurred_at env.now a.in_window).0,
        (window dto.occurred_at env.now a.in_window).1,
      )

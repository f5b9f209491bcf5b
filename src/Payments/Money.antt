-- ===== src/Payments/Money.antt =====
-- The money invariant and `handleWebhook`.
pub mod Captures
pub mod Refunds
use bf_techops.Prelude.{
  ℕ, ◌+◌, ◌≤◌, ◌≡◌, ◌≢◌, refl, sym, ap, subst, ◌∙◌, Option, none, some, ◌∷◌, inl, inr, ==_refl,
  ==_iff, if◌then◌else◌, ◌==◌, true, false, Bool, Bool-cases, arith,
}
use mathlib.Core.Option
use bf_techops.Prelude.Table.{find_one, any_row, update_where, sum_where}
use bf_techops.Prelude.Table.Laws.{updated, find_one-update_where, sum_where-update_where}
use bf_techops.Prelude.Table.Unique.{absurd_bool}
use bf_techops.Js.{Text}
use bf_techops.Failure.{Failure, Result, ok, err}
use bf_techops.Wire.{
  Uuid, paid, partially_paid, PaymentEventType, payment_captured, payment_refunded,
  PaymentWebhookDto, PaymentWebhookResponse,
}
use bf_techops.Persistence.Entities.{InvoiceEntity}
use bf_techops.Persistence.Database.{Database, Env, World}
use bf_techops.Config.{ApiConfig}
use bf_techops.Invoices.Defs.{find_invoice}
use bf_techops.Payments.Defs.{
  apply_event, find_receipt, capture, refund, handle_webhook, captured_total, with_status,
  status_after_capture,
}
use bf_techops.Payments.Capture.{Captured, capture-Captured, captured_db}
use bf_techops.Payments.Refund.{Refunded, refund-Refunded}
use bf_techops.Payments.Webhook.{Applied, Replayed, process_event-ok, handle_webhook-ok}
use bf_techops.Payments.Atomicity.{handle_webhook_atomic}
use bf_techops.Payments.Sound.Captures.{Captured-IsSound}
use bf_techops.Payments.Sound.Refunds.{Refunded-IsSound}
use bf_techops.Payments.Sound.{IsSound, found_id}

pub ==_other : (a b : ℕ) → a ≢ b → (a == b) ≡ false
==_other a b h = ground arith

pub none_seen {ℓ κ} : {A : Type ℓ} {C : Type κ} {a : A} → none ≡ some a → C
none_seen h = cc

-- An UPDATE of the row with one identifier, seen by a query for another one.
pub not_updated :
    (db : Database) (key id : Uuid) (f : InvoiceEntity → InvoiceEntity)
    → id ≢ key
    → (o : Option InvoiceEntity) → find_invoice db id ≡ o
    → Option.map (updated (λ r. r.id == key) f) o ≡ o
not_updated db key id f other none h = refl
not_updated db key id f other (some r) h =
    rw (==_other r.id key (λ e. other (sym (found_id db id h) ∙ e))) refl

module _ (env : Env) (provider : Text) (dto : PaymentWebhookDto) (request_id : Option Text) where
  apply_event-IsSound :
      (event_type : PaymentEventType) (w : World) {w' : World} {response : PaymentWebhookResponse}
      → IsSound w.db
      → apply_event env provider dto request_id event_type w ≡ (ok response, w')
      → IsSound w'.db
  unfolding apply_event
  apply_event-IsSound payment_captured w sound h =
      Captured-IsSound env provider dto request_id w.db sound
        (capture-Captured env provider dto request_id w h)
  apply_event-IsSound payment_refunded w sound h =
      Refunded-IsSound env provider dto request_id w.db sound
        (refund-Refunded env provider dto request_id w h)

  Applied-IsSound :
      (hash : ℕ) (w : World) {db' : Database} {response : PaymentWebhookResponse}
      → IsSound w.db
      → Applied env provider dto request_id hash w response db'
      → IsSound db'
  unfolding find_invoice captured_total
  Applied-IsSound hash w sound a =
      let after = apply_event-IsSound dto.event_type w sound a.applied in
      subst IsSound (sym a.written) (record {
        distinct = after.distinct;
        covered = after.covered;
        payments_booked = after.payments_booked;
        owned = after.owned;
      })

module _ (env : Env) (config : ApiConfig) (provider timestamp signature raw_body : Text)
    (dto : PaymentWebhookDto) (request_id : Option Text) where
  pub handled-IsSound :
      (w : World) (result : Result PaymentWebhookResponse) {w' : World}
      → IsSound w.db
      → handle_webhook env config provider timestamp signature raw_body dto request_id w
        ≡ (result, w')
      → IsSound w'.db
  handled-IsSound w (ok response) sound h =
      let processed =
        (handle_webhook-ok env config provider timestamp signature raw_body dto request_id w h).1 in
      elim (process_event-ok env provider dto request_id (env.sha256 raw_body) w processed) [
        | inl a ↦ Applied-IsSound env provider dto request_id (env.sha256 raw_body) w sound a
        | inr r ↦ subst IsSound (sym r.unchanged) sound
      ]
  handled-IsSound w (err e) {w'} sound h =
      subst IsSound
        (sym (
          handle_webhook_atomic env config provider timestamp signature raw_body dto request_id w w'
            e h))
        sound

  -- Every webhook keeps the payment tables sound, whatever it is answered: payments have different
  -- identifiers, no invoice has more captured than its total, the refunds of each payment sum up to
  -- the refunded amount that the payment says and are at most its amount, and no refund is without
  -- its payment.
  pub handle_webhook_keeps_IsSound :
      (w w' : World) (result : Result PaymentWebhookResponse)
      → IsSound w.db
      → handle_webhook env config provider timestamp signature raw_body dto request_id w
        ≡ (result, w')
      → IsSound w'.db
  handle_webhook_keeps_IsSound w w' result sound h = handled-IsSound w result sound h

-- ===== src/Worker/Retention/Replay.antt =====
-- runRetention and the webhook handler: the receipts are kept for as long as they are needed.
use bf_techops.Prelude.{
  ℕ, ◌+◌, ◌*◌, ◌≤◌, ◌<◌, ◌≡◌, refl, sym, ◌∙◌, true, false, Option, List, [], ◌∷◌, inl, inr, leb,
  ◌==◌, ==_refl, Bool-cases, arith, ◌⊎◌,
}
use bf_techops.Prelude.Table.{any_row}
use bf_techops.Prelude.Table.Unique.{absurd_bool, or_true}
use mathlib.Core.List.{Memᴰ}
use bf_techops.Js.{Text}
use bf_techops.Failure.{ok}
use bf_techops.Wire.{Time, PaymentWebhookDto, PaymentWebhookResponse}
use bf_techops.Persistence.Entities.{PaymentWebhookReceiptEntity}
use bf_techops.Persistence.Database.{Env, World, Database}
use bf_techops.Config.{ApiConfig}
use bf_techops.Payments.Defs.{handle_webhook}
use bf_techops.Payments.Admission.{handle_webhook_admits}
use bf_techops.Worker.Config.{WorkerConfig}
use bf_techops.Worker.Retention.{run_retention}
use bf_techops.Worker.Retention.Keeps.{HasKeys, run_retention_keeps}

any_row-Memᴰ :
    (rows : List PaymentWebhookReceiptEntity) {r : PaymentWebhookReceiptEntity}
    → Memᴰ r rows
    → any_row (λ s. s.id == r.id) rows ≡ true
unfolding any_row
any_row-Memᴰ [] m = elim m [ ]
any_row-Memᴰ (s ∷ rows) {r} (Memᴰ.head h) = rw h (rw (==_refl s.id) refl)
any_row-Memᴰ (s ∷ rows) {r} (Memᴰ.tail m) = rw (any_row-Memᴰ rows m) (or_true (s.id == r.id))

young_or_old : (a b : ℕ) → (a ≤ b) ⊎ (b < a)
young_or_old a b = elim (Bool-cases (leb a b)) [
  | inl c ↦ inl (ground arith)
  | inr c ↦ inr (ground arith)
]

module _ (now : Time) (config : WorkerConfig) (db : Database) (keys : HasKeys db) where
  -- A receipt that is deleted is older than its retention.
  purged-old :
      (r : PaymentWebhookReceiptEntity)
      → Memᴰ r db.payment_webhook_receipts
      → any_row (λ s. s.id == r.id) (run_retention now config db).1.payment_webhook_receipts ≡ false
      → r.received_at + config.webhook_receipt_retention_days * 86_400_000 < now
  purged-old r there gone =
      elim (young_or_old now (r.received_at + config.webhook_receipt_retention_days * 86_400_000)) [
        | inl young ↦ absurd_bool (
            sym (any_row-Memᴰ _ ((run_retention_keeps now config db keys).receipts r there young))
            ∙ gone)
        | inr old ↦ old
      ]

too_late :
    (now then later occurred days : ℕ)
    → 91 ≤ days
    → then + days * 86_400_000 < now
    → now ≤ later
    → occurred ≤ then + 5 * 60_000
    → later ≤ occurred + 90 * 24 * 60 * 60_000
    → ⊥
too_late now then later occurred days enough old after early late = omega arith

-- If receipts are kept for 91 days or longer, then once the retention has deleted the receipt that a
-- webhook left, no webhook with that event's time is answered well again, whatever else it says and
-- whoever signs it: the event is too old. So no event is applied again for want of its receipt.
pub purged_event_refused :
    (now : Time) (config : WorkerConfig) (db : Database) (keys : HasKeys db) (env later : Env)
    (api api' : ApiConfig)
    (provider timestamp signature raw_body provider' timestamp' signature' raw_body' : Text)
    (dto dto' : PaymentWebhookDto) (request_id request_id' : Option Text) (w w' v v' : World)
    (response response' : PaymentWebhookResponse) (r : PaymentWebhookReceiptEntity)
    → 91 ≤ config.webhook_receipt_retention_days
    → handle_webhook env api provider timestamp signature raw_body dto request_id w
      ≡ (ok response, w')
    → r.received_at ≡ env.now
    → Memᴰ r db.payment_webhook_receipts
    → any_row (λ s. s.id == r.id) (run_retention now config db).1.payment_webhook_receipts ≡ false
    → now ≤ later.now
    → dto'.occurred_at ≡ dto.occurred_at
    → ¬ (
        handle_webhook later api' provider' timestamp' signature' raw_body' dto' request_id' v
        ≡ (ok response', v'))
purged_event_refused now config db keys env later api api' provider timestamp signature raw_body
      provider' timestamp' signature' raw_body' dto dto' request_id request_id' w w' v v' response
      response' r enough first stamped there gone after same second =
    let early =
      (handle_webhook_admits env api provider timestamp signature raw_body dto request_id w w'
        response first).2 in
    let late =
      (handle_webhook_admits later api' provider' timestamp' signature' raw_body' dto' request_id' v
        v' response' second).3 in
    too_late now r.received_at later.now dto.occurred_at config.webhook_receipt_retention_days
      enough (purged-old now config db keys r there gone) after (rw stamped early)
      (rw (sym same) late)

-- ===== src/Payments/Status.antt =====
-- The status changes that webhooks make, against the table of the domain.
use bf_techops.Prelude.{
  ℕ, ◌+◌, ◌≡◌, ◌⊎◌, refl, sym, ap, subst, ◌∙◌, Bool, true, false, Option, none, some, [], ◌∷◌, ◌==◌,
  ==_iff, if◌then◌else◌, Bool-cases, inl, inr,
}
use mathlib.Core.Option
use bf_techops.Prelude.Table.{find_one, update_where}
use bf_techops.Prelude.Table.Laws.{updated, find_one-update_where}
use bf_techops.Js.{Text}
use bf_techops.Failure.{Result, ok, err}
use bf_techops.Wire.{
  Uuid, InvoiceStatus, draft, issued, partially_paid, paid, partially_refunded, refunded, cancelled,
  PaymentEventType, payment_captured, payment_refunded, PaymentWebhookDto, PaymentWebhookResponse,
}
use bf_techops.Persistence.Entities.{InvoiceEntity}
use bf_techops.Persistence.Database.{Database, Env, World}
use bf_techops.Config.{ApiConfig}
use bf_techops.Domain.Transition.{includes, Step}
use bf_techops.Invoices.Defs.{find_invoice}
use bf_techops.Payments.Defs.{
  apply_event, handle_webhook, captured_total, with_status, status_after_capture,
}
use bf_techops.Payments.Capture.{capture-Captured}
use bf_techops.Payments.Refund.{refund-Refunded, refund_status, refund_recorded}
use bf_techops.Payments.Webhook.{Applied, process_event-ok, handle_webhook-ok}
use bf_techops.Payments.Sound.{found_id, updated_total}
use bf_techops.Payments.Atomicity.{handle_webhook_atomic}

-- At most one step of the table.
abbrev pub Moved : InvoiceStatus → InvoiceStatus → Type 0
Moved s t = (s ≡ t) ⊎ Step s t

captured-Moved :
    (s : InvoiceStatus) (c : Bool)
    → includes (issued ∷ partially_paid ∷ []) s ≡ true
    → Moved s (if c then paid else partially_paid)
captured-Moved draft c h = cc
captured-Moved issued true h = inr Step.pay_all
captured-Moved issued false h = inr Step.pay_part
captured-Moved partially_paid true h = inr Step.pay_rest
captured-Moved partially_paid false h = inl refl
captured-Moved paid c h = cc
captured-Moved partially_refunded c h = cc
captured-Moved refunded c h = cc
captured-Moved cancelled c h = cc

refunded-Moved :
    (s : InvoiceStatus) (c : Bool)
    → includes (paid ∷ partially_refunded ∷ []) s ≡ true
    → Moved s (if c then refunded else partially_refunded)
refunded-Moved draft c h = cc
refunded-Moved issued c h = cc
refunded-Moved partially_paid c h = cc
refunded-Moved paid true h = inr Step.refund_all
refunded-Moved paid false h = inr Step.refund_part
refunded-Moved partially_refunded true h = inr Step.refund_rest
refunded-Moved partially_refunded false h = inl refl
refunded-Moved refunded c h = cc
refunded-Moved cancelled c h = cc

-- Each invoice is there afterwards, with the same money, and its status has moved.
abbrev pub Stepped : Database → Database → Type 0
Stepped db db' =
    (id : Uuid) (before : InvoiceEntity)
    → find_invoice db id ≡ some before
    → (after : InvoiceEntity) × ((find_invoice db' id ≡ some after)
        × (after.total_minor ≡ before.total_minor)
        × Moved before.status after.status)

row_or : InvoiceEntity → Option InvoiceEntity → InvoiceEntity
row_or other none = other
row_or other (some r) = r

some_same : {a b : InvoiceEntity} → some a ≡ some b → a ≡ b
unfolding row_or
some_same {a} h = ap (row_or a) h

module _ (env : Env) (db : Database) (dto_id : Uuid) (invoice : InvoiceEntity)
    (status : InvoiceStatus) (found : find_invoice db dto_id ≡ some invoice)
    (moved : Moved invoice.status status) where
  rows_after :
      (id : Uuid)
      → find_one
          (λ r. r.id == id)
          (update_where (λ r. r.id == invoice.id) (with_status env status) db.invoices)
        ≡ Option.map
            (updated (λ r. r.id == invoice.id) (with_status env status))
            (find_one (λ r. r.id == id) db.invoices)
  rows_after id =
      find_one-update_where (λ r. r.id == id) (λ r. r.id == invoice.id) (with_status env status)
        (λ r. refl) db.invoices

  Moved-row :
      (id : Uuid) (before : InvoiceEntity)
      → find_invoice db id ≡ some before
      → Moved before.status
          (updated (λ r. r.id == invoice.id) (with_status env status) before).status
  Moved-row id before there = elim (Bool-cases (before.id == invoice.id)) [
    | inr c ↦ rw c (inl refl)
    | inl c ↦
        let same_id : id ≡ dto_id =
          sym (found_id db id there)
          ∙ (==_iff before.id invoice.id).0 c
          ∙ found_id db dto_id found in
        let same : before ≡ invoice =
          some_same (sym there ∙ ap (find_invoice db) same_id ∙ found) in
        rw c (subst (λ (r : InvoiceEntity). Moved r.status status) (sym same) moved)
  ]

  rows-Stepped :
      (db' : Database)
      → db'.invoices ≡ update_where (λ r. r.id == invoice.id) (with_status env status) db.invoices
      → Stepped db db'
  unfolding find_invoice
  rows-Stepped db' rows id before there = (
    updated (λ r. r.id == invoice.id) (with_status env status) before,
    (
      rw rows (rows_after id ∙ rw there refl),
      updated_total env status invoice.id before,
      Moved-row id before there,
    ),
  )

same-Stepped : (db db' : Database) → db'.invoices ≡ db.invoices → Stepped db db'
unfolding find_invoice
same-Stepped db db' rows id before there = (before, (rw rows there, refl, inl refl))

module _ (env : Env) (provider : Text) (dto : PaymentWebhookDto) (request_id : Option Text) where
  applied-Stepped :
      (event_type : PaymentEventType) (w : World) {w' : World} {response : PaymentWebhookResponse}
      → apply_event env provider dto request_id event_type w ≡ (ok response, w')
      → Stepped w.db w'.db
  unfolding apply_event
  applied-Stepped payment_captured w {w'} h =
      let c = capture-Captured env provider dto request_id w h in
      rows-Stepped env w.db dto.invoice_id c.invoice
        (status_after_capture (captured_total w.db c.invoice.id + dto.amount_minor)
          c.invoice.total_minor)
        c.found (captured-Moved c.invoice.status _ c.accepting) w'.db
        (ap (λ (d : Database). d.invoices) c.written)
  applied-Stepped payment_refunded w {w'} h =
      let c = refund-Refunded env provider dto request_id w h in
      rows-Stepped env w.db dto.invoice_id c.invoice
        (refund_status env provider dto request_id
          (refund_recorded env provider dto request_id w.db c.invoice c.payment c.provider_refund_id
            c.refund_id)
          c.invoice)
        c.found (refunded-Moved c.invoice.status _ c.accepting) w'.db
        (ap (λ (d : Database). d.invoices) c.written)

  Applied-Stepped :
      (hash : ℕ) (w : World) {db' : Database} {response : PaymentWebhookResponse}
      → Applied env provider dto request_id hash w response db'
      → Stepped w.db db'
  unfolding find_invoice
  Applied-Stepped hash w a =
      subst (Stepped w.db) (sym a.written)
        (λ id before there. applied-Stepped dto.event_type w a.applied id before there)

module _ (env : Env) (config : ApiConfig) (provider timestamp signature raw_body : Text)
    (dto : PaymentWebhookDto) (request_id : Option Text) where
  -- Every webhook, whatever it is answered, keeps every invoice and its total, and leaves its status
  -- or moves it by one step of the table of status changes.
  pub handle_webhook-Stepped :
      (w w' : World) (result : Result PaymentWebhookResponse)
      → handle_webhook env config provider timestamp signature raw_body dto request_id w
        ≡ (result, w')
      → Stepped w.db w'.db
  handle_webhook-Stepped w w' (ok response) h =
      elim (process_event-ok env provider dto request_id (env.sha256 raw_body) w
        (handle_webhook-ok env config provider timestamp signature raw_body dto request_id w h).1) [
          | inl a ↦ Applied-Stepped env provider dto request_id (env.sha256 raw_body) w a
          | inr r ↦ same-Stepped w.db w'.db (ap (λ (d : Database). d.invoices) r.unchanged)
        ]
  handle_webhook-Stepped w w' (err e) h = same-Stepped w.db w'.db (
      ap (λ (d : Database). d.invoices)
        (handle_webhook_atomic env config provider timestamp signature raw_body dto request_id w w'
          e h))

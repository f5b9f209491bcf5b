-- ===== src/Payments/Money/Captures.antt =====
-- What a capture does to its invoice, and to the others.
use bf_techops.Prelude.{
  ℕ, ◌+◌, ◌≤◌, ◌≡◌, ◌≢◌, refl, sym, ap, subst, ◌∙◌, Option, none, some, inl, inr, ==_refl,
  if◌then◌else◌, ◌==◌, arith,
}
use mathlib.Core.Option
use bf_techops.Prelude.Table.{sum_where}
use bf_techops.Prelude.Table.Laws.{updated, find_one-update_where}
use bf_techops.Js.{Text}
use bf_techops.Failure.{ok}
use bf_techops.Wire.{
  Uuid, paid, partially_paid, PaymentEventType, payment_captured, payment_refunded,
  PaymentWebhookDto, PaymentWebhookResponse,
}
use bf_techops.Persistence.Entities.{InvoiceEntity}
use bf_techops.Persistence.Database.{Database, Env, World}
use bf_techops.Config.{ApiConfig}
use bf_techops.Invoices.Defs.{find_invoice}
use bf_techops.Payments.Defs.{
  apply_event, find_receipt, handle_webhook, captured_total, with_status, status_after_capture,
}
use bf_techops.Payments.Capture.{capture-Captured, captured_db}
use bf_techops.Payments.Webhook.{Applied, process_event-ok, handle_webhook-ok}
use bf_techops.Payments.Sound.{found_id}
use bf_techops.Payments.Money.{==_other, not_updated, none_seen}

module _ (env : Env) (provider : Text) (dto : PaymentWebhookDto) (request_id : Option Text) where
  -- The invoice of a capture, and the others.
  pub record Settled (db db' : Database) : Type 0 where
    pub invoice : InvoiceEntity
    pub found : find_invoice db dto.invoice_id ≡ some invoice
    pub added :
        captured_total db' dto.invoice_id ≡ captured_total db dto.invoice_id + dto.amount_minor
    pub covered : captured_total db' dto.invoice_id ≤ invoice.total_minor
    pub settled :
        find_invoice db' dto.invoice_id
        ≡ some (record invoice {
          status =
              if captured_total db' dto.invoice_id == invoice.total_minor
              then paid
              else partially_paid;
          version = invoice.version + 1;
          updated_at = env.now;
        })
    pub others_found : (id : Uuid) → id ≢ dto.invoice_id → find_invoice db' id ≡ find_invoice db id
    pub others_captured :
        (id : Uuid) → id ≢ dto.invoice_id → captured_total db' id ≡ captured_total db id

  module _ (db : Database) (invoice : InvoiceEntity) (payment_id event_id audit_id : Uuid) where
    after_capture : Database
    after_capture =
        captured_db env provider dto request_id db invoice (captured_total db invoice.id) payment_id
          event_id audit_id

    total_added :
        (id : Uuid)
        → captured_total after_capture id
          ≡ (if invoice.id == id then dto.amount_minor else 0) + captured_total db id
    unfolding after_capture captured_total sum_where
    total_added id = refl

    invoice_after :
        (id : Uuid)
        → find_invoice after_capture id
          ≡ Option.map
              (updated
                (λ r. r.id == invoice.id)
                (with_status env (
                  status_after_capture
                    (captured_total db invoice.id + dto.amount_minor)
                    invoice.total_minor)))
              (find_invoice db id)
    unfolding after_capture find_invoice
    invoice_after id =
        find_one-update_where (λ r. r.id == id) (λ r. r.id == invoice.id) (with_status env _)
          (λ r. refl) db.invoices

    this_total :
        invoice.id ≡ dto.invoice_id
        → captured_total after_capture dto.invoice_id
          ≡ captured_total db dto.invoice_id + dto.amount_minor
    this_total e = rw (total_added dto.invoice_id) (rw (e, ==_refl dto.invoice_id) (omega arith))

    other_total :
        (id : Uuid) → invoice.id ≢ id → captured_total after_capture id ≡ captured_total db id
    other_total id other = rw (total_added id) (rw (==_other invoice.id id other) (omega arith))

    other_invoice :
        (id : Uuid) → invoice.id ≢ id → find_invoice after_capture id ≡ find_invoice db id
    other_invoice id other =
        invoice_after id
        ∙ not_updated db invoice.id id _ (λ h. other (sym h)) (find_invoice db id) refl

    after_capture-Settled :
        find_invoice db dto.invoice_id ≡ some invoice
        → captured_total db invoice.id + dto.amount_minor ≤ invoice.total_minor
        → Settled db after_capture
    after_capture-Settled found within =
        let e = found_id db dto.invoice_id found in
        let same = ap (captured_total db) e in
        let total = this_total e in
        record {
          invoice = invoice;
          found = found;
          added = total;
          covered = omega arith;
          settled =
              rw (invoice_after dto.invoice_id)
                (rw found (rw (==_refl invoice.id) (rw (total, same) refl)));
          others_found = λ id other. other_invoice id (λ h. other (sym h ∙ e));
          others_captured = λ id other. other_total id (λ h. other (sym h ∙ e));
        }

  applied_capture :
      (event_type : PaymentEventType) (w : World) {w' : World} {response : PaymentWebhookResponse}
      → event_type ≡ payment_captured
      → apply_event env provider dto request_id event_type w ≡ (ok response, w')
      → Settled w.db w'.db
  unfolding apply_event after_capture
  applied_capture payment_captured w e h =
      let c = capture-Captured env provider dto request_id w h in
      subst (Settled w.db) (sym c.written)
        (after_capture-Settled w.db c.invoice c.payment_id c.event_id c.audit_id c.found c.within)
  applied_capture payment_refunded w e h = cc

  Applied-Settled :
      (hash : ℕ) (w : World) {db' : Database} {response : PaymentWebhookResponse}
      → dto.event_type ≡ payment_captured
      → Applied env provider dto request_id hash w response db'
      → Settled w.db db'
  unfolding find_invoice captured_total
  Applied-Settled hash w is_capture a =
      let s = applied_capture dto.event_type w is_capture a.applied in
      subst (Settled w.db) (sym a.written) (record {
        invoice = s.invoice;
        found = s.found;
        added = s.added;
        covered = s.covered;
        settled = s.settled;
        others_found = s.others_found;
        others_captured = s.others_captured;
      })

module _ (env : Env) (config : ApiConfig) (provider timestamp signature raw_body : Text)
    (dto : PaymentWebhookDto) (request_id : Option Text) where
  -- A capture that was answered well and that is no replay (there was no receipt of its event) adds
  -- its amount to what the invoice has captured, which stays at most the invoice's total; the
  -- invoice is PAID if the two are the same and PARTIALLY_PAID otherwise, at its next version; what
  -- other invoices have captured, and the other invoices themselves, stay.
  pub capture_settles :
      (w w' : World) (response : PaymentWebhookResponse)
      → dto.event_type ≡ payment_captured
      → find_receipt env provider dto request_id w.db ≡ none
      → handle_webhook env config provider timestamp signature raw_body dto request_id w
        ≡ (ok response, w')
      → Settled env provider dto request_id w.db w'.db
  capture_settles w w' response is_capture unseen h =
      let processed =
        (handle_webhook-ok env config provider timestamp signature raw_body dto request_id w h).1 in
      elim (process_event-ok env provider dto request_id (env.sha256 raw_body) w processed) [
        | inl a ↦ Applied-Settled env provider dto request_id (env.sha256 raw_body) w is_capture a
        | inr r ↦ none_seen (sym unseen ∙ r.seen.1)
      ]

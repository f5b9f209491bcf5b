-- ===== src/Payments/Capture.antt =====
-- What a capture that went through has checked, and what it has written.
use bf_techops.Prelude.{
  ℕ, ◌+◌, ◌≤◌, ◌≡◌, refl, true, false, Option, some, [], ◌∷◌, arith, ◌==◌, ap, sym, ◌∙◌, not-false,
}
use bf_techops.Prelude.Table.{any_row, update_where}
use bf_techops.Prelude.Table.Unique.{any_row-left}
use bf_techops.Js.{Text, text_eq}
use bf_techops.Failure.{ok}
use bf_techops.Wire.{Uuid, issued, partially_paid, PaymentWebhookDto, PaymentWebhookResponse}
use bf_techops.Persistence.Entities.{InvoiceEntity}
use bf_techops.Persistence.Database.{Database, Env, World}
use bf_techops.Persistence.Insert.{same_payment, insert_payment}
use bf_techops.Persistence.Inversion.{
  on_bind, on_throw_if, on_insert, after_gets, after_draw, after_write, pure-ok,
}
use bf_techops.Audit.{audit_row, record_audit}
use bf_techops.Audit.Laws.{record_audit-written}
use bf_techops.Domain.Transition.{includes}
use bf_techops.Invoices.Defs.{find_invoice}
use bf_techops.Payments.Defs.{
  captured_total, with_status, status_after_capture, emit, record_capture, capture,
}
use bf_techops.Payments.Steps.{on_locked, emit-written}
use bf_techops.Payments.Defs.Rows.{payment_row, payment_event, capture_audit, accepted_response}

module _ (env : Env) (provider : Text) (dto : PaymentWebhookDto) (request_id : Option Text) where
  -- The tables after a capture.
  abbrev pub captured_db : Database → InvoiceEntity → ℕ → Uuid → Uuid → Uuid → Database
  captured_db db invoice already payment_id event_id audit_id =
      let status = status_after_capture (already + dto.amount_minor) invoice.total_minor in
      record db {
        payments = payment_row env provider dto invoice payment_id ∷ db.payments;
        invoices = update_where (λ r. r.id == invoice.id) (with_status env status) db.invoices;
        outbox_events =
            payment_event env provider dto invoice "payment.captured.v1" status event_id
            ∷ db.outbox_events;
        audit_events =
            audit_row env (capture_audit env provider dto invoice request_id payment_id) audit_id
            ∷ db.audit_events;
      }

  pub record Captured (db : Database) (response : PaymentWebhookResponse) (db' : Database)
      : Type 0 where
    pub invoice : InvoiceEntity
    pub payment_id : Uuid
    pub event_id : Uuid
    pub audit_id : Uuid
    pub found : find_invoice db dto.invoice_id ≡ some invoice
    pub accepting : includes (issued ∷ partially_paid ∷ []) invoice.status ≡ true
    pub same_currency : text_eq invoice.currency dto.currency ≡ true
    pub new_payment :
        any_row (same_payment env provider dto.provider_payment_id) db.payments ≡ false
    pub fresh_id : any_row (λ r. r.id == payment_id) db.payments ≡ false
    pub within : captured_total db invoice.id + dto.amount_minor ≤ invoice.total_minor
    pub written :
        db' ≡ captured_db db invoice (captured_total db invoice.id) payment_id event_id audit_id
    pub answered :
        response
        ≡ accepted_response dto invoice
            (status_after_capture
              (captured_total db invoice.id + dto.amount_minor)
              invoice.total_minor)
            payment_id

  -- The tables that the writes of `capture` leave.
  record_capture-written :
      (invoice : InvoiceEntity) (already : ℕ) (w : World) {w' : World}
      {response : PaymentWebhookResponse}
      → record_capture env provider dto request_id invoice already w ≡ (ok response, w')
      → (payment_id : Uuid) × (event_id : Uuid) × (audit_id : Uuid) × (w'.db
          ≡ captured_db w.db invoice already payment_id event_id audit_id)
        × (response
            ≡ accepted_response dto invoice
                (status_after_capture (already + dto.amount_minor) invoice.total_minor)
                payment_id)
        × (any_row (λ r. r.id == payment_id) w.payments ≡ false)
  unfolding record_capture insert_payment
  record_capture-written invoice already w h =
      let h₁ = after_draw env _ h in
      on_insert _ _ (insert_payment env _) _ _ _ refl h₁ λ _ unique h₂.
        let h₃ = after_write _ _ h₂ in
        on_bind (emit env provider dto request_id invoice _ _) _ h₃ λ _ w₁ emitted h₄.
          on_bind (record_audit env _) _ h₄ λ _ w₂ recorded h₅.
            let (event_id, out) = emit-written env provider dto request_id invoice _ _ _ emitted in
            let (audit_id, trail) = record_audit-written env _ w₁ recorded in
            let done = pure-ok _ w₂ h₅ in
            (
              env.random_uuid w.drawn,
              event_id,
              audit_id,
              ap (λ (v : World). v.db) (sym done.1)
                  ∙ trail
                  ∙ ap
                      (λ (d : Database). record d {
                        audit_events =
                            audit_row env
                              (capture_audit env provider dto invoice request_id
                                (env.random_uuid w.drawn))
                              audit_id
                            ∷ d.audit_events;
                      })
                      out,
              sym done.0,
              any_row-left _ _ w.payments unique,
            )

  -- A capture that goes through has passed every check on the tables that it found, and has written
  -- the payment, the status, the event and the audit record.
  pub capture-Captured :
      (w : World) {w' : World} {response : PaymentWebhookResponse}
      → capture env provider dto request_id w ≡ (ok response, w')
      → Captured w.db response w'.db
  unfolding capture
  capture-Captured w h = on_locked _ _ h λ invoice found h₁. on_throw_if _ _ _ h₁ λ accepting h₂.
      on_throw_if _ _ _ h₂ λ currency h₃. on_throw_if _ _ _ (after_gets _ _ h₃) λ fresh h₄.
        on_throw_if _ _ _ (after_gets _ _ h₄) λ within h₅.
          let (payment_id, event_id, audit_id, written, answered, unused) =
            record_capture-written invoice (captured_total w.db invoice.id) w h₅ in
          record {
            invoice = invoice;
            payment_id = payment_id;
            event_id = event_id;
            audit_id = audit_id;
            found = found;
            accepting = not-false _ accepting;
            same_currency = not-false _ currency;
            new_payment = fresh;
            fresh_id = unused;
            within = ground arith;
            written = written;
            answered = answered;
          }

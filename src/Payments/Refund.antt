-- ===== src/Payments/Refund.antt =====
-- What a refund that went through has checked, and what it has written.
use bf_techops.Prelude.{
  ◌&&◌, ◌+◌, ◌≤◌, ◌≡◌, refl, true, false, Option, none, some, [], ◌∷◌, arith, ◌==◌, ap, sym, ◌∙◌,
  not-false,
}
use bf_techops.Prelude.Table.{any_row, update_where}
use bf_techops.Js.{Text, text_eq}
use bf_techops.Failure.{ok}
use bf_techops.Wire.{
  Uuid, InvoiceStatus, paid, partially_refunded, PaymentWebhookDto, PaymentWebhookResponse,
}
use bf_techops.Persistence.Entities.{InvoiceEntity, PaymentEntity}
use bf_techops.Persistence.Database.{Database, Env, World}
use bf_techops.Persistence.Insert.{same_refund, insert_refund}
use bf_techops.Persistence.Inversion.{
  on_bind, on_some, on_throw_if, on_insert, after_gets, after_draw, after_write, pure-ok,
}
use bf_techops.Audit.{audit_row, record_audit}
use bf_techops.Audit.Laws.{record_audit-written}
use bf_techops.Domain.Transition.{includes}
use bf_techops.Invoices.Defs.{find_invoice}
use bf_techops.Payments.Defs.{
  captured_total, refunded_total, with_status, with_refund, status_after_refund,
  payment_status_after, emit, record_refund, refund, nonempty, find_payment,
}
use bf_techops.Payments.Steps.{on_locked, emit-written}
use bf_techops.Payments.Defs.Rows.{refund_row, payment_event, refund_audit, accepted_response}

module _ (env : Env) (provider : Text) (dto : PaymentWebhookDto) (request_id : Option Text) where
  -- The tables when the refund is recorded on its payment, before the sums are read.
  abbrev pub refund_recorded : Database → InvoiceEntity → PaymentEntity → Text → Uuid → Database
  refund_recorded db invoice payment provider_refund_id refund_id =
      let amount = payment.refunded_minor + dto.amount_minor in
      record db {
        refunds =
            refund_row env provider dto invoice payment provider_refund_id refund_id ∷ db.refunds;
        payments =
            update_where (λ r. r.id == payment.id && r.version == payment.version)
              (with_refund env amount (payment_status_after amount payment.amount_minor))
              db.payments;
      }

  -- The status that the sums of these tables give the invoice.
  abbrev pub refund_status : Database → InvoiceEntity → InvoiceStatus
  refund_status db invoice =
      status_after_refund (refunded_total db invoice.id) (captured_total db invoice.id)

  -- The tables after the refund, from those with the refund recorded.
  abbrev pub refund_finished :
      Database → InvoiceEntity → PaymentEntity → Uuid → Uuid → Uuid → Database
  refund_finished db invoice payment refund_id event_id audit_id =
      let status = refund_status db invoice in
      record db {
        invoices = update_where (λ r. r.id == invoice.id) (with_status env status) db.invoices;
        outbox_events =
            payment_event env provider dto invoice "payment.refunded.v1" status event_id
            ∷ db.outbox_events;
        audit_events =
            audit_row env (refund_audit env provider dto invoice payment request_id refund_id)
              audit_id
            ∷ db.audit_events;
      }

  pub record Refunded (db : Database) (response : PaymentWebhookResponse) (db' : Database)
      : Type 0 where
    pub payment : PaymentEntity
    pub invoice : InvoiceEntity
    pub provider_refund_id : Text
    pub refund_id : Uuid
    pub event_id : Uuid
    pub audit_id : Uuid
    pub named : dto.provider_refund_id ≡ some provider_refund_id
    pub found_payment : find_payment env provider dto request_id db ≡ some payment
    pub found : find_invoice db dto.invoice_id ≡ some invoice
    pub belongs : payment.invoice_id ≡ invoice.id
    pub accepting : includes (paid ∷ partially_refunded ∷ []) invoice.status ≡ true
    pub same_currency : text_eq payment.currency dto.currency ≡ true
    pub within : payment.refunded_minor + dto.amount_minor ≤ payment.amount_minor
    pub new_refund : any_row (same_refund env provider provider_refund_id) db.refunds ≡ false
    pub written :
        db'
        ≡ refund_finished
            (refund_recorded db invoice payment provider_refund_id refund_id)
            invoice
            payment
            refund_id
            event_id
            audit_id
    pub answered :
        response
        ≡ accepted_response dto invoice
            (refund_status
              (refund_recorded db invoice payment provider_refund_id refund_id)
              invoice)
            payment.id

  nonempty-some : (o : Option Text) {t : Text} → nonempty o ≡ some t → o ≡ some t
  nonempty-some none h = cc
  nonempty-some (some []) h = cc
  nonempty-some (some (c ∷ s)) h = h

  -- The tables that the writes of `refund` leave.
  record_refund-written :
      (invoice : InvoiceEntity) (payment : PaymentEntity) (provider_refund_id : Text) (w : World)
      {w' : World} {response : PaymentWebhookResponse}
      → record_refund env provider dto request_id invoice payment provider_refund_id w
        ≡ (ok response, w')
      → (refund_id : Uuid) × (event_id : Uuid) × (audit_id : Uuid) × (w'.db
          ≡ refund_finished
              (refund_recorded w.db invoice payment provider_refund_id refund_id)
              invoice
              payment
              refund_id
              event_id
              audit_id)
        × (response
            ≡ accepted_response dto invoice
                (refund_status
                  (refund_recorded w.db invoice payment provider_refund_id refund_id)
                  invoice)
                payment.id)
  unfolding record_refund insert_refund
  record_refund-written invoice payment provider_refund_id w h =
      on_insert _ _ (insert_refund env _) _ _ _ refl (after_draw env _ h) λ _ _ h₂.
        let h₃ = after_write _ _ (after_gets _ _ (after_gets _ _ (after_write _ _ h₂))) in
        on_bind (emit env provider dto request_id invoice _ _) _ h₃ λ _ w₁ emitted h₄.
          on_bind (record_audit env _) _ h₄ λ _ w₂ recorded h₅.
            let (event_id, out) = emit-written env provider dto request_id invoice _ _ _ emitted in
            let (audit_id, trail) = record_audit-written env _ w₁ recorded in
            let done = pure-ok _ w₂ h₅ in
            (
              env.random_uuid w.drawn,
              event_id,
              audit_id,
              ap (λ (v : World). v.db) (sym done.1)
                  ∙ trail
                  ∙ ap
                      (λ (d : Database). record d {
                        audit_events =
                            audit_row env
                              (refund_audit env provider dto invoice payment request_id
                                (env.random_uuid w.drawn))
                              audit_id
                            ∷ d.audit_events;
                      })
                      out,
              sym done.0,
            )

  -- A refund that goes through has passed every check on the tables that it found, and has written
  -- the refund, the payment, the status, the event and the audit record.
  pub refund-Refunded :
      (w : World) {w' : World} {response : PaymentWebhookResponse}
      → refund env provider dto request_id w ≡ (ok response, w')
      → Refunded w.db response w'.db
  unfolding refund
  refund-Refunded w h = on_some _ _ _ h λ refund_name named h₁.
      on_some _ _ _ (after_gets _ _ h₁) λ payment found_payment h₂.
        on_locked _ _ h₂ λ invoice found h₃. on_throw_if _ _ _ h₃ λ belongs h₄.
          on_throw_if _ _ _ h₄ λ accepting h₅. on_throw_if _ _ _ h₅ λ currency h₆.
            on_throw_if _ _ _ h₆ λ within h₇. on_throw_if _ _ _ (after_gets _ _ h₇) λ fresh h₈.
              let (refund_id, event_id, audit_id, written, answered) =
                record_refund-written invoice payment refund_name w h₈ in
              record {
                payment = payment;
                invoice = invoice;
                provider_refund_id = refund_name;
                refund_id = refund_id;
                event_id = event_id;
                audit_id = audit_id;
                named = nonempty-some dto.provider_refund_id named;
                found_payment = found_payment;
                found = found;
                belongs = ground arith;
                accepting = not-false _ accepting;
                same_currency = not-false _ currency;
                within = ground arith;
                new_refund = fresh;
                written = written;
                answered = answered;
              }

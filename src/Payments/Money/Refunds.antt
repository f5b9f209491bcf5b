-- ===== src/Payments/Money/Refunds.antt =====
-- What a refund does to its payment and its invoice, and to the others.
use bf_techops.Prelude.{
  ℕ, ◌+◌, ◌≤◌, ◌≡◌, ◌≢◌, ◌&&◌, refl, sym, ap, subst, ◌∙◌, Option, none, some, inl, inr, ==_refl,
  if◌then◌else◌, ◌==◌, true, Bool, arith, List, [], ◌∷◌, Bool-cases, ==_iff,
}
use mathlib.Core.Option
use bf_techops.Prelude.Table.Laws.{updated, find_one-update_where, sum_where-update_where}
use bf_techops.Js.{Text}
use bf_techops.Failure.{ok}
use bf_techops.Wire.{
  Uuid, PaymentEventType, payment_captured, payment_refunded, PaymentWebhookDto,
  PaymentWebhookResponse, refunded, partially_refunded,
}
use bf_techops.Persistence.Entities.{InvoiceEntity, PaymentEntity, PaymentStatus}
use bf_techops.Persistence.Database.{Database, Env, World}
use bf_techops.Config.{ApiConfig}
use bf_techops.Invoices.Defs.{find_invoice}
use bf_techops.Payments.Defs.{
  apply_event, find_receipt, handle_webhook, captured_total, with_status, refunded_total,
  with_refund, find_payment, payment_status_after,
}
use bf_techops.Payments.Refund.{refund-Refunded, refund_recorded, refund_finished}
use bf_techops.Payments.Webhook.{Applied, process_event-ok, handle_webhook-ok}
use bf_techops.Payments.Sound.{IsSound, found_id}
use bf_techops.Payments.Money.{==_other, not_updated, none_seen}
use bf_techops.Prelude.Table.Single.{sum_where-update_one}
use bf_techops.Prelude.Table.{find_one}

-- An UPDATE of a payment leaves the first row under another identifier.
not_touched :
    (id key version : ℕ) (f : PaymentEntity → PaymentEntity)
    → id ≢ key
    → (rows : List PaymentEntity)
    → Option.map
        (updated (λ r. r.id == key && r.version == version) f)
        (find_one (λ r. r.id == id) rows)
      ≡ find_one (λ r. r.id == id) rows
unfolding find_one
not_touched id key version f other [] = refl
not_touched id key version f other (r ∷ rows) = elim (Bool-cases (r.id == id)) [
  | inl c ↦
      let this : r.id ≡ id = (==_iff r.id id).0 c in
      rw c (rw (==_other r.id key (λ e. other (sym this ∙ e))) refl)
  | inr c ↦ rw c (not_touched id key version f other rows)
]

module _ (env : Env) (provider : Text) (dto : PaymentWebhookDto) (request_id : Option Text) where
  -- The invoice and the payment of a refund, and the others.
  pub record Reversed (db db' : Database) : Type 0 where
    pub invoice : InvoiceEntity
    pub payment : PaymentEntity
    pub found : find_invoice db dto.invoice_id ≡ some invoice
    pub found_payment : find_payment env provider dto request_id db ≡ some payment
    pub belongs : payment.invoice_id ≡ dto.invoice_id
    pub added :
        refunded_total db' dto.invoice_id ≡ refunded_total db dto.invoice_id + dto.amount_minor
    pub payment_after :
        find_payment env provider dto request_id db'
        ≡ some (record payment {
          refunded_minor = payment.refunded_minor + dto.amount_minor;
          status =
              if payment.refunded_minor + dto.amount_minor == payment.amount_minor
              then PaymentStatus.refunded
              else PaymentStatus.partially_refunded;
          version = payment.version + 1;
          updated_at = env.now;
        })
    pub covered : payment.refunded_minor + dto.amount_minor ≤ payment.amount_minor
    pub settled :
        find_invoice db' dto.invoice_id
        ≡ some (record invoice {
          status =
              if refunded_total db' dto.invoice_id == captured_total db' dto.invoice_id
              then refunded
              else partially_refunded;
          version = invoice.version + 1;
          updated_at = env.now;
        })
    pub captured_kept : (id : Uuid) → captured_total db' id ≡ captured_total db id
    pub others_found : (id : Uuid) → id ≢ dto.invoice_id → find_invoice db' id ≡ find_invoice db id
    pub other_payments :
        (id : Uuid)
        → id ≢ payment.id
        → find_one (λ r. r.id == id) db'.payments ≡ find_one (λ r. r.id == id) db.payments

  module _ (db : Database) (invoice : InvoiceEntity) (payment : PaymentEntity) (name : Text)
      (refund_id event_id audit_id : Uuid) where
    this_payment : PaymentEntity → Bool
    this_payment r = r.id == payment.id && r.version == payment.version

    with_amount : PaymentEntity → PaymentEntity
    with_amount =
        with_refund env (payment.refunded_minor + dto.amount_minor)
          (payment_status_after (payment.refunded_minor + dto.amount_minor) payment.amount_minor)

    recorded : Database
    recorded = refund_recorded env provider dto request_id db invoice payment name refund_id

    after_refund : Database
    after_refund =
        refund_finished env provider dto request_id recorded invoice payment refund_id event_id
          audit_id

    this_hit : this_payment payment ≡ true
    unfolding this_payment
    this_hit = rw (==_refl payment.id) (rw (==_refl payment.version) refl)

    only_this : (r : PaymentEntity) → this_payment r ≡ true → r.id ≡ payment.id
    unfolding this_payment
    only_this r h = ground arith

    captured_kept_lem : (id : Uuid) → captured_total after_refund id ≡ captured_total db id
    unfolding captured_total after_refund recorded with_amount
    captured_kept_lem id =
        sum_where-update_where (λ p. p.invoice_id == id) _ (λ p. p.amount_minor) with_amount
          (λ r. refl) (λ r. refl) db.payments

    refunded_added :
        IsSound db
        → find_payment env provider dto request_id db ≡ some payment
        → refunded_total after_refund payment.invoice_id
          ≡ refunded_total db payment.invoice_id + dto.amount_minor
    unfolding refunded_total after_refund recorded this_payment with_amount find_payment
    refunded_added sound found =
        let grown =
          sum_where-update_one (λ p. p.id) (λ p. p.invoice_id == payment.invoice_id) this_payment
            (λ p. p.refunded_minor) with_amount payment only_this _ db.payments this_hit
            (==_refl payment.invoice_id) (==_refl payment.invoice_id) sound.distinct found in
        omega (arith, grown)

    invoice_after :
        (id : Uuid)
        → find_invoice after_refund id
          ≡ Option.map
              (updated
                (λ r. r.id == invoice.id)
                (with_status env (
                  if refunded_total after_refund invoice.id
                    == captured_total after_refund invoice.id
                  then refunded
                  else partially_refunded)))
              (find_invoice db id)
    unfolding after_refund recorded find_invoice captured_total refunded_total
    invoice_after id =
        find_one-update_where (λ r. r.id == id) (λ r. r.id == invoice.id) (with_status env _)
          (λ r. refl) db.invoices

    other_payments_lem :
        (id : Uuid)
        → id ≢ payment.id
        → find_one (λ r. r.id == id) after_refund.payments ≡ find_one (λ r. r.id == id) db.payments
    unfolding after_refund recorded with_amount this_payment
    other_payments_lem id other =
        find_one-update_where (λ r. r.id == id) this_payment with_amount (λ r. refl) db.payments
        ∙ not_touched id payment.id payment.version with_amount other db.payments

    payment_after_lem :
        find_payment env provider dto request_id db ≡ some payment
        → find_payment env provider dto request_id after_refund ≡ some (with_amount payment)
    unfolding after_refund recorded find_payment this_payment with_amount
    payment_after_lem found =
        find_one-update_where _ this_payment with_amount (λ r. refl) db.payments
        ∙ rw found (rw (==_refl payment.id) (rw (==_refl payment.version) refl))

    after_refund-Reversed :
        IsSound db
        → find_invoice db dto.invoice_id ≡ some invoice
        → find_payment env provider dto request_id db ≡ some payment
        → payment.invoice_id ≡ invoice.id
        → payment.refunded_minor + dto.amount_minor ≤ payment.amount_minor
        → Reversed db after_refund
    unfolding with_amount
    after_refund-Reversed sound found found_payment belongs within =
        let e = found_id db dto.invoice_id found in
        let this = belongs ∙ e in
        record {
          invoice = invoice;
          payment = payment;
          found = found;
          found_payment = found_payment;
          belongs = this;
          added =
              subst
                (λ (id : Uuid).
                  refunded_total after_refund id ≡ refunded_total db id + dto.amount_minor)
                this (refunded_added sound found_payment);
          payment_after = payment_after_lem found_payment;
          covered = within;
          settled = rw (invoice_after dto.invoice_id) (
              rw found (
                rw (==_refl invoice.id) (
                  ap
                    (λ (id : Uuid). some (
                      with_status env
                        (if refunded_total after_refund id == captured_total after_refund id
                          then refunded
                          else partially_refunded)
                        invoice))
                    e)));
          captured_kept = captured_kept_lem;
          other_payments = other_payments_lem;
          others_found = λ id other.
              invoice_after id
              ∙ not_updated db invoice.id id _ (λ h. other (h ∙ e)) (find_invoice db id) refl;
        }

  applied_refund :
      (event_type : PaymentEventType) (w : World) {w' : World} {response : PaymentWebhookResponse}
      → event_type ≡ payment_refunded
      → IsSound w.db
      → apply_event env provider dto request_id event_type w ≡ (ok response, w')
      → Reversed w.db w'.db
  unfolding apply_event after_refund recorded
  applied_refund payment_refunded w e sound h =
      let r = refund-Refunded env provider dto request_id w h in
      subst (Reversed w.db) (sym r.written) (
        after_refund-Reversed w.db r.invoice r.payment r.provider_refund_id r.refund_id r.event_id
          r.audit_id sound r.found r.found_payment r.belongs r.within)
  applied_refund payment_captured w e sound h = cc

  Applied-Reversed :
      (hash : ℕ) (w : World) {db' : Database} {response : PaymentWebhookResponse}
      → dto.event_type ≡ payment_refunded
      → IsSound w.db
      → Applied env provider dto request_id hash w response db'
      → Reversed w.db db'
  unfolding find_invoice captured_total refunded_total find_payment
  Applied-Reversed hash w is_refund sound a =
      let s = applied_refund dto.event_type w is_refund sound a.applied in
      subst (Reversed w.db) (sym a.written) (record {
        invoice = s.invoice;
        payment = s.payment;
        found = s.found;
        found_payment = s.found_payment;
        belongs = s.belongs;
        added = s.added;
        payment_after = s.payment_after;
        covered = s.covered;
        settled = s.settled;
        captured_kept = s.captured_kept;
        others_found = s.others_found;
        other_payments = s.other_payments;
      })

module _ (env : Env) (config : ApiConfig) (provider timestamp signature raw_body : Text)
    (dto : PaymentWebhookDto) (request_id : Option Text) where
  -- On sound tables, a refund that was answered well and that is no replay adds its amount to what
  -- its payment, and in sum the invoice, has refunded, at most the payment's amount; the payment is
  -- REFUNDED if that is its whole amount and PARTIALLY_REFUNDED otherwise; the invoice is REFUNDED if
  -- all that it has captured is refunded and PARTIALLY_REFUNDED otherwise; both are at their next
  -- versions; what the invoices have captured, the other invoices and the other payments stay.
  pub refund_settles :
      (w w' : World) (response : PaymentWebhookResponse)
      → dto.event_type ≡ payment_refunded
      → IsSound w.db
      → find_receipt env provider dto request_id w.db ≡ none
      → handle_webhook env config provider timestamp signature raw_body dto request_id w
        ≡ (ok response, w')
      → Reversed env provider dto request_id w.db w'.db
  refund_settles w w' response is_refund sound unseen h =
      let processed =
        (handle_webhook-ok env config provider timestamp signature raw_body dto request_id w h).1 in
      elim (process_event-ok env provider dto request_id (env.sha256 raw_body) w processed) [
        | inl a ↦
            Applied-Reversed env provider dto request_id (env.sha256 raw_body) w is_refund sound a
        | inr r ↦ none_seen (sym unseen ∙ r.seen.1)
      ]

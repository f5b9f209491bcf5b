-- ===== src/Payments/Sound/Refunds.antt =====
-- The money invariant and `refund` of PaymentService.
use bf_techops.Prelude.{
  ◌+◌, ◌≤◌, ◌≡◌, refl, sym, ap, subst, ◌∙◌, Bool, true, false, ◌&&◌, Option, some, List, ◌∷◌, ◌==◌,
  arith, inl, inr, Bool-cases, ==_refl,
}
use bf_techops.Prelude.Table.{sum_where}
use bf_techops.Prelude.Table.Laws.{updated, sum_where-update_where}
use bf_techops.Prelude.Table.Unique.{
  any_row-key, found_key, Distinct-update_where, All-update_where, All-map, found_alone,
}
use bf_techops.Js.{Text}
use bf_techops.Wire.{Uuid, PaymentWebhookDto, PaymentWebhookResponse}
use bf_techops.Persistence.Entities.{InvoiceEntity, PaymentEntity, RefundEntity}
use bf_techops.Persistence.Database.{Database, Env}
use bf_techops.Invoices.Defs.{find_invoice}
use bf_techops.Payments.Defs.{captured_total, with_refund, find_payment, payment_status_after}
use bf_techops.Payments.Defs.Rows.{refund_row}
use bf_techops.Payments.Refund.{Refunded, refund_recorded, refund_finished}
use bf_techops.Payments.Sound.{
  refunds_of, IsBooked, IsSound, on_found_invoice, updated_total, ==_sym_false,
}

module _ (env : Env) (provider : Text) (dto : PaymentWebhookDto) (request_id : Option Text) where
  module _ (db : Database) (invoice : InvoiceEntity) (payment : PaymentEntity) (name : Text)
      (refund_id : Uuid) where
    refunds' : List RefundEntity
    refunds' = refund_row env provider dto invoice payment name refund_id ∷ db.refunds

    this_payment : PaymentEntity → Bool
    this_payment r = r.id == payment.id && r.version == payment.version

    with_amount : PaymentEntity → PaymentEntity
    with_amount =
        with_refund env (payment.refunded_minor + dto.amount_minor)
          (payment_status_after (payment.refunded_minor + dto.amount_minor) payment.amount_minor)

    payment-IsBooked :
        IsBooked db.refunds payment
        → payment.refunded_minor + dto.amount_minor ≤ payment.amount_minor
        → IsBooked refunds' (updated this_payment with_amount payment)
    unfolding refunds' this_payment with_amount refunds_of sum_where
    payment-IsBooked before within = rw (==_refl payment.id) (
        rw (==_refl payment.version) (record {
          booked = rw (==_refl payment.id, before.booked) (omega arith);
          within = within;
        }))

    other-IsBooked :
        (r : PaymentEntity)
        → (r.id == payment.id) ≡ false
        → IsBooked db.refunds r
        → IsBooked refunds' (updated this_payment with_amount r)
    unfolding refunds' this_payment with_amount refunds_of sum_where
    other-IsBooked r differs before = rw differs (record {
      booked = rw (==_sym_false r.id payment.id differs, before.booked) (omega arith);
      within = before.within;
    })

    updated-IsBooked :
        payment.refunded_minor + dto.amount_minor ≤ payment.amount_minor
        → (r : PaymentEntity) → IsBooked db.refunds r
        → ((r.id == payment.id) ≡ true → r ≡ payment)
        → IsBooked refunds' (updated this_payment with_amount r)
    updated-IsBooked within r before alone = elim (Bool-cases (r.id == payment.id)) [
      | inl same ↦
          let e = alone same in
          subst (λ (p : PaymentEntity). IsBooked refunds' (updated this_payment with_amount p))
            (sym e) (payment-IsBooked (subst (IsBooked db.refunds) e before) within)
      | inr differs ↦ other-IsBooked r differs before
    ]

    refund_finished-IsSound :
        (event_id audit_id : Uuid)
        → IsSound db
        → find_payment env provider dto request_id db ≡ some payment
        → payment.refunded_minor + dto.amount_minor ≤ payment.amount_minor
        → IsSound (
            refund_finished env provider dto request_id
              (refund_recorded env provider dto request_id db invoice payment name refund_id)
              invoice
              payment
              refund_id
              event_id
              audit_id)
    unfolding captured_total find_invoice find_payment refunds' this_payment with_amount
    refund_finished-IsSound event_id audit_id sound found within = record {
      distinct =
          Distinct-update_where (λ p. p.id) this_payment with_amount (λ r. refl) db.payments
            sound.distinct;
      covered = λ id after h.
          on_found_invoice env _ invoice.id id db.invoices h λ before there same.
            rw
              (sym (ap (λ (r : InvoiceEntity). r.total_minor) same)
                ∙ updated_total env _ invoice.id before)
              (rw
                (sum_where-update_where (λ p. p.invoice_id == id) this_payment (λ p. p.amount_minor)
                  with_amount (λ r. refl) (λ r. refl) db.payments)
                (sound.covered id before there));
      payments_booked =
          All-update_where (IsBooked refunds') this_payment with_amount (updated-IsBooked within)
            db.payments sound.payments_booked
            (found_alone (λ p. p.id) _ db.payments sound.distinct found);
      owned = (
        any_row-key (λ p. p.id) payment.id this_payment with_amount (λ r. refl) db.payments
            ∙ found_key (λ p. p.id) _ db.payments found,
        All-map _
            (λ r there.
              any_row-key (λ p. p.id) r.payment_id this_payment with_amount (λ r. refl) db.payments
              ∙ there)
            db.refunds sound.owned,
      );
    }

  pub Refunded-IsSound :
      (db : Database) {db' : Database} {response : PaymentWebhookResponse}
      → IsSound db
      → Refunded env provider dto request_id db response db'
      → IsSound db'
  Refunded-IsSound db sound r = subst IsSound (sym r.written) (
      refund_finished-IsSound db r.invoice r.payment r.provider_refund_id r.refund_id r.event_id
        r.audit_id sound r.found_payment r.within)

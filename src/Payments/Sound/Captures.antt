-- ===== src/Payments/Sound/Captures.antt =====
-- The money invariant and `capture` of PaymentService.
use bf_techops.Prelude.{◌+◌, ◌≤◌, ◌≡◌, sym, ap, subst, ◌∙◌, false, Option, some, ◌==◌, arith}
use bf_techops.Prelude.Table.{any_row, sum_where}
use bf_techops.Prelude.Table.Unique.{All-map, or_true}
use bf_techops.Js.{Text}
use bf_techops.Wire.{Uuid, PaymentWebhookDto, PaymentWebhookResponse}
use bf_techops.Persistence.Entities.{InvoiceEntity}
use bf_techops.Persistence.Database.{Database, Env}
use bf_techops.Invoices.Defs.{find_invoice}
use bf_techops.Payments.Defs.{captured_total}
use bf_techops.Payments.Capture.{Captured, captured_db}
use bf_techops.Payments.Sound.{IsSound, on_found_invoice, updated_total, no_refunds, adds_up}

module _ (env : Env) (provider : Text) (dto : PaymentWebhookDto) (request_id : Option Text) where
  captured_db-IsSound :
      (db : Database) (invoice : InvoiceEntity) (payment_id event_id audit_id : Uuid)
      → IsSound db
      → find_invoice db dto.invoice_id ≡ some invoice
      → any_row (λ r. r.id == payment_id) db.payments ≡ false
      → captured_total db invoice.id + dto.amount_minor ≤ invoice.total_minor
      → IsSound (
          captured_db env provider dto request_id db invoice
            (captured_total db invoice.id)
            payment_id
            event_id
            audit_id)
  unfolding captured_total sum_where find_invoice any_row
  captured_db-IsSound db invoice payment_id event_id audit_id sound found fresh within = record {
    distinct = (fresh, sound.distinct);
    covered = λ id after h. on_found_invoice env _ invoice.id id db.invoices h λ before there same.
        rw
          (sym (ap (λ (r : InvoiceEntity). r.total_minor) same)
            ∙ updated_total env _ invoice.id before)
          (adds_up db dto.invoice_id id dto.amount_minor before sound found within there);
    payments_booked = (
      record {
        booked = no_refunds db.payments payment_id db.refunds fresh sound.owned;
        within = omega arith;
      },
      sound.payments_booked,
    );
    owned = All-map _ (λ r there. rw there (or_true _)) db.refunds sound.owned;
  }

  pub Captured-IsSound :
      (db : Database) {db' : Database} {response : PaymentWebhookResponse}
      → IsSound db
      → Captured env provider dto request_id db response db'
      → IsSound db'
  Captured-IsSound db sound c = subst IsSound (sym c.written) (
      captured_db-IsSound db c.invoice c.payment_id c.event_id c.audit_id sound c.found c.fresh_id
        c.within)

-- ===== src/Payments/Steps.antt =====
-- Steps that captures and refunds share.
use bf_techops.Prelude.{String, ◌≡◌, Option, some, ◌∷◌, ap, sym, subst}
use bf_techops.Js.{Text}
use bf_techops.Failure.{ok}
use bf_techops.Wire.{Uuid, InvoiceStatus, PaymentWebhookDto}
use bf_techops.Persistence.Entities.{InvoiceEntity}
use bf_techops.Persistence.Database.{Env, World, Action, ◌>>=◌}
use bf_techops.Persistence.Insert.{insert_outbox_event}
use bf_techops.Persistence.Inversion.{on_bind, after_gets, after_draw, refusal-ok, some_or_throw-ok}
use bf_techops.Invoices.Defs.{find_invoice}
use bf_techops.Payments.Defs.{lock_invoice, emit}
use bf_techops.Payments.Defs.Rows.{payment_event}

-- The invoice that `lockInvoice` finds.
pub on_locked {κ μ} :
    {B : Type κ} {C : Type μ} (invoice_id : Uuid) (f : InvoiceEntity → Action B) {w w'' : World}
    {b : B}
    → (lock_invoice invoice_id >>= f) w ≡ (ok b, w'')
    → ((invoice : InvoiceEntity)
        → find_invoice w.db invoice_id ≡ some invoice
        → f invoice w ≡ (ok b, w'')
        → C)
    → C
unfolding lock_invoice
on_locked invoice_id f {w} {w''} {b} h k =
    on_bind (lock_invoice invoice_id) f h λ invoice w₁ locked h₁.
      let found = some_or_throw-ok _ _ w (after_gets _ _ locked) in
      k invoice found.0 (subst (λ (v : World). f invoice v ≡ (ok b, w'')) (sym found.1) h₁)

module _ (env : Env) (provider : Text) (dto : PaymentWebhookDto) (request_id : Option Text) where
  pub emit-written :
      (invoice : InvoiceEntity) (event_type : String) (status : InvoiceStatus) (w : World)
      {u : Unit {0}} {w' : World}
      → emit env provider dto request_id invoice event_type status w ≡ (ok u, w')
      → (id : Uuid) × (w'.db ≡ record w.db {
        outbox_events =
            payment_event env provider dto invoice event_type status id ∷ w.outbox_events;
      })
  unfolding emit insert_outbox_event
  emit-written invoice event_type status w h = (
    env.random_uuid w.drawn,
    sym (ap (λ (v : World). v.db) (refusal-ok _ _ _ _ (after_draw env _ h)).1),
  )

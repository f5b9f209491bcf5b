-- ===== src/Invoices/Transition.antt =====
-- `transition` of apps/api/src/invoices/invoice.service.ts: what it checks and writes.
use bf_techops.Prelude.{
  ◌+◌, ◌&&◌, ◌==◌, ◌≡◌, refl, sym, ap, subst, ◌∙◌, Option, none, some, ◌∷◌, arith,
}
use bf_techops.Prelude.Table.{update_where, count_where}
use bf_techops.Failure.{Result, ok, err}
use bf_techops.Js.{Text}
use bf_techops.Wire.{
  Uuid, ActorTokenPayload, UpdateInvoiceStatusDto, InvoiceResponse, actor_subject, status_changed,
}
use bf_techops.Persistence.Entities.{
  StoreEntity, InvoiceEntity, AuditEventEntity, OutboxEventEntity, OutboxStatus,
}
use bf_techops.Persistence.Database.{Database, Env, World, transaction_read_committed}
use bf_techops.Persistence.Insert.{insert_outbox_event}
use bf_techops.Persistence.Inversion.{
  on_bind, on_lift, on_attempt, on_some, on_throw_if, on_insert, after_gets, after_draw,
  after_write, pure-ok, transaction-ok,
}
use bf_techops.Domain.Transition.{Step, assert_invoice_transition-iff-Step}
use bf_techops.MerchantScope.Defs.{authorize_store}
use bf_techops.Audit.{record_audit}
use bf_techops.Audit.Laws.{record_audit-written}
use bf_techops.Invoices.Defs.{
  find_invoice, as_conflict, at_version, transition_checks, transition_writes, transition,
}
use bf_techops.Invoices.Defs.Rows.{to_response}

as_conflict-ok : (r : Result (Unit {0})) {u : Unit {0}} → as_conflict r ≡ ok u → r ≡ ok tt
as_conflict-ok (ok v) h = refl
as_conflict-ok (err e) h = cc

module _ (env : Env) (actor : ActorTokenPayload) (invoice_id : Uuid) (request_id : Option Text)
    (dto : UpdateInvoiceStatusDto) where
  -- The checks that a transition has passed on the tables that it read.
  pub record Checked (db : Database) (invoice : InvoiceEntity) : Type 0 where
    pub found : find_invoice db invoice_id ≡ some invoice
    pub store : StoreEntity
    pub authorized : authorize_store db actor.actor_merchant_id invoice.store_id ≡ ok store
    pub step : Step invoice.status dto.status
    pub expected : invoice.version ≡ dto.expected_version

  -- The event that tells of a status change.
  abbrev pub changed_event : InvoiceEntity → Uuid → OutboxEventEntity
  changed_event invoice event_id = record {
    id = event_id;
    aggregate_type = "invoice";
    aggregate_id = invoice.id;
    merchant_id = invoice.merchant_id;
    event_type = "invoice.status-changed.v1";
    payload = record {
      event_id = event_id;
      invoice_id = invoice.id;
      merchant_id = invoice.merchant_id;
      store_id = invoice.store_id;
      customer_name = invoice.customer_name;
      customer_contact = invoice.customer_contact;
      currency = invoice.currency;
      total_minor = invoice.total_minor;
      status = dto.status;
      issued_at = invoice.issued_at;
      provider_event_id = none;
      payment_amount_minor = none;
    };
    status = OutboxStatus.pending;
    attempts = 0;
    available_at = env.now;
    lock_until = none;
    published_at = none;
    last_error = none;
    created_at = env.now;
  }

  -- The audit record of a status change.
  abbrev pub changed_audit : InvoiceEntity → Uuid → AuditEventEntity
  changed_audit invoice audit_id = record {
    id = audit_id;
    merchant_id = invoice.merchant_id;
    actor_subject = actor_subject actor;
    action = "invoice.status_changed";
    resource_type = "invoice";
    resource_id = invoice.id;
    request_id = request_id;
    details = status_changed invoice.status dto.status dto.expected_version;
    created_at = env.now;
  }

  abbrev pub transitioned_db : Database → InvoiceEntity → Uuid → Uuid → Database
  transitioned_db db invoice event_id audit_id = record db {
    invoices =
        update_where (λ r. r.id == invoice_id && r.version == dto.expected_version)
          (λ r. record r { status = dto.status; version = r.version + 1; updated_at = env.now })
          db.invoices;
    outbox_events = changed_event invoice event_id ∷ db.outbox_events;
    audit_events = changed_audit invoice audit_id ∷ db.audit_events;
  }

  pub record Transitioned (db others : Database) (response : InvoiceResponse) (db' : Database)
      : Type 0 where
    pub invoice : InvoiceEntity
    pub event_id : Uuid
    pub audit_id : Uuid
    pub checked : Checked db invoice
    pub single :
        count_where (λ r. r.id == invoice_id && r.version == dto.expected_version) others.invoices
        ≡ 1
    pub written : db' ≡ transitioned_db others invoice event_id audit_id
    pub answered : response ≡ record {
      id = invoice.id;
      store_id = invoice.store_id;
      status = dto.status;
      currency = invoice.currency;
      subtotal_minor = invoice.subtotal_minor;
      discount_minor = invoice.discount_minor;
      tax_minor = invoice.tax_minor;
      total_minor = invoice.total_minor;
      issued_at = invoice.issued_at;
      version = invoice.version + 1;
    }

  pub transition_checks-Checked :
      (w : World) {invoice : InvoiceEntity} {w' : World}
      → transition_checks env actor invoice_id request_id dto w ≡ (ok invoice, w')
      → Checked w.db invoice × (w ≡ w')
  unfolding transition_checks
  transition_checks-Checked w h = on_some _ _ _ (after_gets _ _ h) λ invoice found h₁.
      on_attempt _ _ h₁ λ store authorized h₂. on_lift _ _ h₂ λ _ allowed h₃.
        on_throw_if _ _ _ h₃ λ same h₄.
          let done = pure-ok invoice _ h₄ in
          (
            subst (Checked w.db) done.0 (record {
              found = found;
              store = store;
              authorized = authorized;
              step =
                  (assert_invoice_transition-iff-Step invoice.status dto.status).0
                    (as_conflict-ok _ allowed);
              expected = ground arith;
            }),
            done.1,
          )

  transition_writes-written :
      (invoice : InvoiceEntity) (w : World) {response : InvoiceResponse} {w' : World}
      → transition_writes env actor invoice_id request_id dto invoice w ≡ (ok response, w')
      → (event_id : Uuid) × (audit_id : Uuid) × (count_where
            (at_version invoice_id dto.expected_version)
            w.invoices
          ≡ 1)
        × (w'.db ≡ transitioned_db w.db invoice event_id audit_id)
        × (response
            ≡ to_response (record invoice { status = dto.status; version = invoice.version + 1 }))
  unfolding transition_writes insert_outbox_event
  transition_writes-written invoice w h =
      on_throw_if _ _ _ (after_write _ _ (after_gets _ _ h)) λ single h₁.
        on_insert _ _ (insert_outbox_event _) _ _ _ refl (after_draw env _ h₁) λ _ _ h₂.
          on_bind (record_audit env _) _ h₂ λ _ w₁ recorded h₃.
            let (audit_id, trail) = record_audit-written env _ _ recorded in
            let done = pure-ok _ _ h₃ in
            (
              env.random_uuid w.drawn,
              audit_id,
              ground arith,
              ap (λ (v : World). v.db) (sym done.1) ∙ trail,
              sym done.0,
            )

  -- A status change that was answered well was checked on the tables that it read (`w.db`): the
  -- invoice is there, the actor is authorized for its store, the change is a step of the relation and
  -- the version is the expected one; on the tables that others have left meanwhile, exactly one row
  -- still had that version, and that row got the status and the next version, with one event and one
  -- audit record; nothing else was written.
  pub transition-Transitioned :
      (others : Database → Database) (w w' : World) (response : InvoiceResponse)
      → transition env actor invoice_id request_id dto others w ≡ (ok response, w')
      → Transitioned w.db (others w.db) response w'.db
  unfolding transition transaction_read_committed to_response
  transition-Transitioned others w w' response h =
      on_bind (transition_checks env actor invoice_id request_id dto) _ h λ invoice w₁ checks h₁.
        let checked = transition_checks-Checked w checks in
        let same = ap (λ (v : World). v.db) (sym checked.1) in
        let (event_id, audit_id, single, written, answered) =
          transition_writes-written invoice _ (transaction-ok _ _ (after_write _ _ h₁)) in
        subst (λ (d : Database). Transitioned w.db (others d) response w'.db) same
          (record {
            invoice = invoice;
            event_id = event_id;
            audit_id = audit_id;
            checked = checked.0;
            single = single;
            written = written;
            answered = answered;
          })

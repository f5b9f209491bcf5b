-- ===== src/Invoices/Issue.antt =====
-- What `issue_invoice` has written when it went through.
use bf_techops.Prelude.{
  ◌+◌, ◌≡◌, refl, sym, ap, subst, ◌∙◌, Bool, Option, none, some, List, map, ◌∷◌, ==_refl,
}
use bf_techops.Prelude.Table.{find_one}
use bf_techops.Js.{Text, codes, trim, to_lower_case, nat}
use bf_techops.Failure.{Result, ok, err, type_error, range_error}
use bf_techops.Wire.{
  Uuid, issued, ActorTokenPayload, CreateInvoiceDto, InvoiceResponse, actor_subject,
  invoice_created,
}
use bf_techops.Persistence.Entities.{
  StoreEntity, InvoiceLineEntity, IdempotencyRecordEntity, OutboxStatus,
}
use bf_techops.Persistence.Database.{Database, Env, World}
use bf_techops.Persistence.Insert.{
  insert_invoice, insert_invoice_lines, insert_outbox_event, insert_idempotency_record,
}
use bf_techops.Persistence.Inversion.{on_bind, on_lift, on_attempt, on_insert, after_draw, pure-ok}
use bf_techops.Domain.Money.{CalculatedInvoice, calculate_invoice}
use bf_techops.MerchantScope.Defs.{authorize_store}
use bf_techops.Audit.Laws.{record_audit-written}
use bf_techops.Audit.{record_audit, audit_row}
use bf_techops.Invoices.Defs.{domain_input, operation, find_idempotency, issue_invoice}
use bf_techops.Invoices.Defs.Rows.{
  request_fingerprint, invoice_input, line_rows, issued_response, issued_event, idempotency_row,
  created_audit,
}
use bf_techops.Invoices.Lines.{
  LinesOf, inserted, line_rows-LinesOf, line_rows-db, insert_invoice_lines-db,
}

pub domain_input-ok {ℓ} : {A : Type ℓ} (r : Result A) {c : A} → domain_input r ≡ ok c → r ≡ ok c
domain_input-ok (ok a) h = h
domain_input-ok (err (type_error m)) h = cc
domain_input-ok (err (range_error m)) h = cc
domain_input-ok (err e) h = cc

module _ (env : Env) (actor : ActorTokenPayload) (request_id : Option Text) (dto : CreateInvoiceDto)
    (key : Text) where
  -- The record under the key has the fingerprint of this request and this response.
  abbrev pub HasRecord : Database → InvoiceResponse → Type 0
  HasRecord db response =
      (r : IdempotencyRecordEntity) × (find_idempotency env db actor.actor_merchant_id key ≡ some r)
      × (r.request_hash ≡ request_fingerprint env dto)
      × (r.response_body ≡ response)

  -- The answer to a request whose invoice is new.
  abbrev pub created_response : StoreEntity → CalculatedInvoice → Uuid → InvoiceResponse
  created_response store calculated invoice_id = record {
    id = invoice_id;
    store_id = store.id;
    status = issued;
    currency = dto.currency;
    subtotal_minor = calculated.subtotal_minor;
    discount_minor = calculated.discount_minor;
    tax_minor = calculated.tax_minor;
    total_minor = calculated.total_minor;
    issued_at = env.now;
    version = 1;
  }

  -- The tables with the invoice, its lines, the event, the record and the audit trail.
  abbrev pub issued_db :
      Database
      → StoreEntity
      → CalculatedInvoice
      → List InvoiceLineEntity
      → Uuid
      → Uuid
      → Uuid
      → Uuid
      → Database
  issued_db db store calculated lines invoice_id event_id record_id audit_id = record db {
    invoices =
        record {
          id = invoice_id;
          merchant_id = store.merchant_id;
          store_id = store.id;
          created_by = actor_subject actor;
          customer_name = trim dto.customer_name;
          customer_contact = to_lower_case dto.customer_contact;
          currency = dto.currency;
          subtotal_minor = calculated.subtotal_minor;
          discount_minor = calculated.discount_minor;
          tax_rate_basis_points = calculated.tax_rate_basis_points;
          tax_minor = calculated.tax_minor;
          total_minor = calculated.total_minor;
          status = issued;
          issued_at = env.now;
          version = 1;
          created_at = env.now;
          updated_at = env.now;
        }
        ∷ db.invoices;
    invoice_lines = inserted lines db.invoice_lines;
    outbox_events =
        record {
          id = event_id;
          aggregate_type = "invoice";
          aggregate_id = invoice_id;
          merchant_id = store.merchant_id;
          event_type = "invoice.issued.v1";
          payload = record {
            event_id = event_id;
            invoice_id = invoice_id;
            merchant_id = store.merchant_id;
            store_id = store.id;
            customer_name = trim dto.customer_name;
            customer_contact = to_lower_case dto.customer_contact;
            currency = dto.currency;
            total_minor = calculated.total_minor;
            status = issued;
            issued_at = env.now;
            provider_event_id = none;
            payment_amount_minor = none;
          };
          status = OutboxStatus.pending;
          attempts = 0;
          available_at = env.now;
          lock_until = none;
          published_at = none;
          last_error = none;
          created_at = env.now;
        }
        ∷ db.outbox_events;
    idempotency_records =
        record {
          id = record_id;
          actor_merchant_id = actor.actor_merchant_id;
          operation = codes "invoice.create";
          idempotency_key = key;
          request_hash = request_fingerprint env dto;
          response_status = 201;
          response_body = created_response store calculated invoice_id;
          created_at = env.now;
        }
        ∷ db.idempotency_records;
    audit_events =
        record {
          id = audit_id;
          merchant_id = store.merchant_id;
          actor_subject = actor_subject actor;
          action = "invoice.created";
          resource_type = "invoice";
          resource_id = invoice_id;
          request_id = request_id;
          details = invoice_created store.id dto.currency calculated.total_minor;
          created_at = env.now;
        }
        ∷ db.audit_events;
  }

  -- The invoice was priced for a store that the actor is authorized for, and stands in the tables,
  -- with an event, an audit record and the record under the key.
  pub record Issued (db : Database) (response : InvoiceResponse) (db' : Database) : Type 0 where
    pub store : StoreEntity
    pub calculated : CalculatedInvoice
    pub lines : List InvoiceLineEntity
    pub invoice_id : Uuid
    pub event_id : Uuid
    pub record_id : Uuid
    pub audit_id : Uuid
    pub authorized : authorize_store db actor.actor_merchant_id dto.store_id ≡ ok store
    pub priced :
        calculate_invoice (record {
          items =
              map
                (λ item. record {
                  description = item.description;
                  quantity = nat item.quantity;
                  unit_price_minor = nat item.unit_price_minor;
                })
                dto.items;
          discount_minor = nat dto.discount_minor;
          tax_rate_basis_points = nat dto.tax_rate_basis_points;
        })
        ≡ ok calculated
    pub lined : LinesOf invoice_id 1 calculated.items lines
    pub written : db' ≡ issued_db db store calculated lines invoice_id event_id record_id audit_id
    pub answered : response ≡ created_response store calculated invoice_id

  pub Issued-HasRecord :
      {db db' : Database} {response : InvoiceResponse}
      → Issued db response db'
      → HasRecord db' response
  unfolding find_idempotency find_one
  Issued-HasRecord {db} {db'} {response} i =
      subst (λ (d : Database). HasRecord d response) (sym i.written)
        (
          idempotency_row env actor key (request_fingerprint env dto)
              (issued_response env dto i.store i.calculated i.invoice_id) i.record_id,
          rw (==_refl actor.actor_merchant_id)
              (rw (==_refl (env.collation operation)) (rw (==_refl (env.collation key)) refl)),
          refl,
          sym i.answered,
        )

  pub issue_invoice-Issued :
      (w : World) {w' : World} {response : InvoiceResponse} {replayed : Bool}
      → issue_invoice env actor request_id dto key w ≡ (ok (response, replayed), w')
      → Issued w.db response w'.db
  unfolding issue_invoice insert_invoice insert_outbox_event insert_idempotency_record
  issue_invoice-Issued w h = on_attempt _ _ h λ store authorized h₁.
      on_lift _ _ h₁ λ calculated priced h₂.
        on_insert _ _ (insert_invoice _) _ _ _ refl (after_draw env _ h₂) λ _ _ h₃.
          on_bind (line_rows env _ 1 calculated.items) _ h₃ λ rows w₁ drawn h₄.
            on_bind (insert_invoice_lines rows) _ h₄ λ _ w₂ lined h₅.
              on_insert _ _ (insert_outbox_event _) _ _ _ refl (after_draw env _ h₅) λ _ _ h₆.
                on_insert _ _ (insert_idempotency_record env _) _ _ _ refl (after_draw env _ h₆)
                  λ _ _ h₇. on_bind (record_audit env _) _ h₇ λ _ w₃ recorded h₈.
                    let done = pure-ok _ w₃ h₈ in
                    let (audit_id, trail) = record_audit-written env _ _ recorded in
                    let before =
                      insert_invoice_lines-db rows w₁ lined
                      ∙ ap
                          (λ (d : Database). record d {
                            invoice_lines = inserted rows d.invoice_lines;
                          })
                          (line_rows-db env _ 1 calculated.items _ drawn) in
                    record {
                      store = store;
                      calculated = calculated;
                      lines = rows;
                      lined = line_rows-LinesOf env _ 1 calculated.items _ drawn;
                      invoice_id = env.random_uuid w.drawn;
                      event_id = env.random_uuid w₂.drawn;
                      record_id = env.random_uuid (w₂.drawn + 1);
                      audit_id = audit_id;
                      authorized = authorized;
                      priced = domain_input-ok (calculate_invoice (invoice_input dto)) priced;
                      written =
                          ap (λ (v : World). v.db) (sym done.1)
                          ∙ trail
                          ∙ ap
                              (λ (d : Database). record d {
                                outbox_events =
                                    issued_event env dto store calculated (env.random_uuid w.drawn)
                                      (env.random_uuid w₂.drawn)
                                    ∷ d.outbox_events;
                                idempotency_records =
                                    idempotency_row env actor key (request_fingerprint env dto)
                                      (issued_response env dto store calculated
                                        (env.random_uuid w.drawn))
                                      (env.random_uuid (w₂.drawn + 1))
                                    ∷ d.idempotency_records;
                                audit_events =
                                    audit_row env
                                      (created_audit actor request_id dto store calculated
                                        (env.random_uuid w.drawn))
                                      audit_id
                                    ∷ d.audit_events;
                              })
                              before;
                      answered = sym (ap (λ (r : InvoiceResponse × Bool). r.0) done.0);
                    }

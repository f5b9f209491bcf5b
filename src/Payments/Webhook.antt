-- ===== src/Payments/Webhook.antt =====
-- What a webhook that was answered well has done: it is new and was applied, or it is a replay of an
-- event whose receipt stands in the tables.
use bf_techops.Prelude.{
  ℕ, ◌/◌, ◌≡◌, ◌⊎◌, refl, sym, ap, subst, ◌∙◌, Bool, true, false, Option, none, some, ◌∷◌, ◌==◌,
  inl, inr, arith, ==_refl, not-false,
}
use bf_techops.Prelude.Table.{find_one}
use bf_techops.Js.{Text, text_eq, nat}
use bf_techops.Failure.{Failure, Result, ok, err, reject_if}
use bf_techops.Wire.{Uuid, PaymentWebhookDto, PaymentWebhookResponse}
use bf_techops.Persistence.Entities.{PaymentWebhookReceiptEntity}
use bf_techops.Persistence.Database.{
  Database, Env, Metric, World, ◌>>=◌, ◌>>◌, pure, gets, count, transaction, throw_if, lift,
  try_catch,
}
use bf_techops.Persistence.Insert.{insert_receipt}
use bf_techops.Persistence.Inversion.{
  on_bind, on_throw_if, on_insert, after_gets, after_draw, after_count, on_if, on_count_throw,
  pure-ok, transaction-ok, on_try_catch,
}
use bf_techops.Persistence.Atomic.{
  FailsAt_lem, FailsAt-bind, FailsAt-transaction, FailsAt-count-pure,
}
use bf_techops.Config.{ApiConfig}
use bf_techops.Domain.Webhook.{verify_webhook_signature}
use bf_techops.Invoices.Defs.{is_duplicate_key}
use bf_techops.Payments.Defs.{
  apply_event, find_receipt, accept_event, after_duplicate, event_failed, process_event,
  after_signature, check_event_time, counted, outside_window, handle_webhook,
}
use bf_techops.Payments.Defs.Rows.{duplicate_response, receipt_row}

module _ (env : Env) (provider : Text) (dto : PaymentWebhookDto) (request_id : Option Text)
    (hash : ℕ) where
  -- The tables hold the receipt of this event with this payload.
  abbrev pub HasReceipt : Database → Type 0
  HasReceipt db =
      (receipt : PaymentWebhookReceiptEntity) × (find_receipt env provider dto request_id db
        ≡ some receipt)
      × (receipt.payload_hash ≡ hash)

  -- A new event: it was applied, and its receipt was written in the same transaction.
  pub record Applied (w : World) (response : PaymentWebhookResponse) (db' : Database) : Type 0 where
    pub unseen : find_receipt env provider dto request_id w.db ≡ none
    pub after : World
    pub applied : apply_event env provider dto request_id dto.event_type w ≡ (ok response, after)
    pub receipt_id : Uuid
    pub written : db' ≡ record after.db {
      payment_webhook_receipts =
          receipt_row env provider dto hash receipt_id ∷ after.payment_webhook_receipts;
    }

  -- A replay: nothing is written.
  pub record Replayed (db : Database) (response : PaymentWebhookResponse) (db' : Database)
      : Type 0 where
    pub seen : HasReceipt db
    pub unchanged : db' ≡ db
    pub answered : response ≡ duplicate_response dto

  accept_event-ok :
      (o : Option PaymentWebhookReceiptEntity) (w : World) {w' : World}
      {response : PaymentWebhookResponse}
      → find_receipt env provider dto request_id w.db ≡ o
      → accept_event env provider dto request_id hash o w ≡ (ok response, w')
      → Applied w response w'.db ⊎ Replayed w.db response w'.db
  unfolding accept_event insert_receipt
  accept_event-ok none w unseen h =
      on_bind (apply_event env provider dto request_id dto.event_type) _ h λ response w₁ applied h₁.
        on_insert _ _ (insert_receipt env _) _ _ _ refl (after_draw env _ h₁) λ _ _ h₂.
          let done = pure-ok _ _ h₂ in
          inl (record {
            unseen = unseen;
            after = w₁;
            applied =
                subst
                  (λ (r : PaymentWebhookResponse).
                    apply_event env provider dto request_id dto.event_type w ≡ (ok r, w₁))
                  done.0 applied;
            receipt_id = env.random_uuid w₁.drawn;
            written = ap (λ (v : World). v.db) (sym done.1);
          })
  accept_event-ok (some receipt) w seen h = on_throw_if _ _ _ h λ same h₁.
      let done = pure-ok _ _ h₁ in
      inr (record {
        seen = (receipt, seen, ground arith);
        unchanged = ap (λ (v : World). v.db) (sym done.1);
        answered = sym done.0;
      })

  after_duplicate-Replayed :
      (e : Failure) (o : Option PaymentWebhookReceiptEntity) (w : World) {w' : World}
      {response : PaymentWebhookResponse}
      → find_receipt env provider dto request_id w.db ≡ o
      → after_duplicate env provider dto request_id hash e o w ≡ (ok response, w')
      → Replayed w.db response w'.db
  unfolding after_duplicate
  after_duplicate-Replayed e none w seen h = on_count_throw _ _ w h
  after_duplicate-Replayed e (some receipt) w seen h =
      on_if (receipt.payload_hash == hash) _ _ w h
        (λ same h'.
          let done = pure-ok _ _ (after_count _ _ h') in
          record {
            seen = (receipt, seen, ground arith);
            unchanged = ap (λ (v : World). v.db) (sym done.1);
            answered = sym done.0;
          })
        λ new h'. on_count_throw _ _ w h'

  Replayed-move :
      {db db₁ db' : Database} {response : PaymentWebhookResponse}
      → db₁ ≡ db
      → Replayed db₁ response db'
      → Replayed db response db'
  Replayed-move {db' = db'} {response} e r = subst (λ (d : Database). Replayed d response db') e r

  -- The body of the `try` fails only where its transaction does.
  process_body :
      (w : World) (m : PaymentWebhookResponse → Metric) {e : Failure} {w₁ : World}
      → (transaction (
              gets (λ v. find_receipt env provider dto request_id v.db)
              >>= accept_event env provider dto request_id hash)
            >>= λ response. count (m response) >> pure response)
          w
        ≡ (err e, w₁)
      → w₁.db ≡ w.db
  process_body w m h =
      FailsAt_lem w.db _
        (FailsAt-bind w.db _ _ w (FailsAt-transaction _ w) λ r e. FailsAt-count-pure w.db _ r _) h

  -- An event that was answered well is new and was applied, or is a replay.
  pub process_event-ok :
      (w : World) {w' : World} {response : PaymentWebhookResponse}
      → process_event env provider dto request_id hash w ≡ (ok response, w')
      → Applied w response w'.db ⊎ Replayed w.db response w'.db
  unfolding process_event event_failed
  process_event-ok w {w'} {response} h =
      on_try_catch _ _ w h
        (λ went. on_bind (transaction _) _ went λ r w₁ transacted h₁.
          let done = pure-ok r _ (after_count _ _ h₁) in
          let body = after_gets _ _ (transaction-ok _ w transacted) in
          let result = accept_event-ok _ w refl body in
          subst (λ (d : Database). Applied w response d ⊎ Replayed w.db response d)
            (ap (λ (v : World). v.db) done.1)
            (subst (λ (r : PaymentWebhookResponse). Applied w r w₁.db ⊎ Replayed w.db r w₁.db)
              done.0 result))
        λ e w₁ failed h₁.
          on_if (is_duplicate_key e) _ _ w₁ h₁
            (λ race h₂. inr (
              Replayed-move (process_body w _ failed)
                (after_duplicate-Replayed e _ w₁ refl (after_gets _ _ h₂))))
            λ other h₂. on_count_throw _ _ w₁ h₂

  written_receipt :
      (db : Database) (id : Uuid)
      → HasReceipt (record db {
        payment_webhook_receipts =
            receipt_row env provider dto hash id ∷ db.payment_webhook_receipts;
      })
  unfolding find_receipt find_one
  written_receipt db id = (
    receipt_row env provider dto hash id,
    rw (==_refl (env.collation provider)) (rw (==_refl (env.collation dto.provider_event_id)) refl),
    refl,
  )

  -- After it, the receipt stands in the tables.
  pub process_event-HasReceipt :
      (w : World) {w' : World} {response : PaymentWebhookResponse}
      → process_event env provider dto request_id hash w ≡ (ok response, w')
      → HasReceipt w'.db
  process_event-HasReceipt w h = elim (process_event-ok w h) [
    | inl a ↦ subst HasReceipt (sym a.written) (written_receipt a.after.db a.receipt_id)
    | inr r ↦ subst HasReceipt (sym r.unchanged) r.seen
  ]

  -- With the receipt there, the event is a duplicate, and only its metric is counted.
  pub process_event-replay :
      (w : World)
      → HasReceipt w.db
      → process_event env provider dto request_id hash w ≡ (
        ok (duplicate_response dto),
        record w { metrics = counted env provider dto request_id "duplicate" ∷ w.metrics },
      )
  unfolding process_event ◌>>=◌ gets transaction accept_event throw_if lift reject_if pure count
      try_catch
  process_event-replay w (receipt, seen, same) =
      let e : (receipt.payload_hash == hash) ≡ true = ground arith in rw seen (rw e refl)

module _ (env : Env) (config : ApiConfig) (provider timestamp signature raw_body : Text)
    (dto : PaymentWebhookDto) (request_id : Option Text) where
  -- The checks that a request has passed before its event is looked at.
  pub record Admitted : Type 0 where
    pub configured : text_eq provider config.payment_provider ≡ true
    pub checked : Bool
    pub signed :
        verify_webhook_signature env raw_body config.payment_webhook_secret
          (env.to_number timestamp)
          signature
          (env.now / 1000)
          (nat config.payment_webhook_tolerance_seconds)
        ≡ ok checked
    pub in_window : outside_window env provider dto request_id ≡ false

  after_signature-ok :
      (r : Result Bool) (w : World) {u : Unit {0}} {w' : World}
      → after_signature env provider dto request_id r w ≡ (ok u, w')
      → (checked : Bool) × (r ≡ ok checked) × (w ≡ w')
  after_signature-ok (ok checked) w h = (checked, refl, (pure-ok _ _ h).1)
  after_signature-ok (err e) w h = on_count_throw _ _ w h

  check_event_time-ok :
      (w : World) {u : Unit {0}} {w' : World}
      → check_event_time env provider dto request_id w ≡ (ok u, w')
      → (outside_window env provider dto request_id ≡ false) × (w ≡ w')
  unfolding check_event_time
  check_event_time-ok w h =
      on_if (outside_window env provider dto request_id) _ _ w h (λ out h₁. on_count_throw _ _ w h₁)
        λ within h₁. (within, (pure-ok _ _ h₁).1)

  pub handle_webhook-ok :
      (w : World) {w' : World} {response : PaymentWebhookResponse}
      → handle_webhook env config provider timestamp signature raw_body dto request_id w
        ≡ (ok response, w')
      → Admitted
        × (process_event env provider dto request_id (env.sha256 raw_body) w ≡ (ok response, w'))
  unfolding handle_webhook
  handle_webhook-ok w {w'} {response} h = on_throw_if _ _ _ h λ known h₁.
      on_bind (after_signature env provider dto request_id _) _ h₁ λ _ w₁ verified h₂.
        on_bind (check_event_time env provider dto request_id) _ h₂ λ _ w₂ timely h₃.
          let signature_ok = after_signature-ok _ w verified in
          let time_ok = check_event_time-ok w₁ timely in
          (
            record {
              configured = not-false _ known;
              checked = signature_ok.0;
              signed = signature_ok.1;
              in_window = time_ok.0;
            },
            subst
                (λ (v : World).
                  process_event env provider dto request_id (env.sha256 raw_body) v
                  ≡ (ok response, w'))
                (sym (signature_ok.2 ∙ time_ok.1)) h₃,
          )

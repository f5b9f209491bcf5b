-- ===== src/Payments/Atomicity.antt =====
-- `handleWebhook` of PaymentService when it throws.
use bf_techops.Prelude.{ℕ, ◌≡◌, refl, Bool, Option, none, some, ◌∙◌, ◌==◌, inl, inr, Bool-cases}
use bf_techops.Js.{Text}
use bf_techops.Failure.{Failure, Result, ok, err}
use bf_techops.Wire.{PaymentWebhookDto}
use bf_techops.Persistence.Entities.{PaymentWebhookReceiptEntity}
use bf_techops.Persistence.Database.{Env, World, ◌>>=◌, pure, throw, lift, gets, throw_if, count}
use bf_techops.Persistence.Atomic.{
  FailsAt, StaysAt, FailsAt_lem, FailsAt-move, FailsAt-bind, FailsAt-bind_stays, FailsAt-count-pure,
  FailsAt-transaction, FailsAt-try_catch,
}
use bf_techops.Config.{ApiConfig}
use bf_techops.Invoices.Defs.{is_duplicate_key}
use bf_techops.Payments.Defs.{
  after_duplicate, event_failed, process_event, after_signature, check_event_time, outside_window,
  find_receipt, handle_webhook,
}

module _ (env : Env) (provider : Text) (dto : PaymentWebhookDto) (request_id : Option Text) where
  after_duplicate-FailsAt :
      (hash : ℕ) (e : Failure) (o : Option PaymentWebhookReceiptEntity) (w : World)
      → FailsAt w.db (after_duplicate env provider dto request_id hash e o w)
  unfolding after_duplicate ◌>>=◌ count throw pure
  after_duplicate-FailsAt hash e none w = refl
  after_duplicate-FailsAt hash e (some r) w = elim (Bool-cases (r.payload_hash == hash)) [
    | inl same ↦ rw same tt
    | inr new ↦ rw new refl
  ]

  event_failed-FailsAt :
      (hash : ℕ) (e : Failure) (w : World)
      → FailsAt w.db (event_failed env provider dto request_id hash e w)
  unfolding event_failed ◌>>=◌ count throw gets
  event_failed-FailsAt hash e w = elim (Bool-cases (is_duplicate_key e)) [
    | inl race ↦
        rw race (after_duplicate-FailsAt hash e (find_receipt env provider dto request_id w.db) w)
    | inr other ↦ rw other refl
  ]

  process_event-FailsAt :
      (hash : ℕ) (w : World) → FailsAt w.db (process_event env provider dto request_id hash w)
  unfolding process_event
  process_event-FailsAt hash w =
      FailsAt-try_catch w.db _ _ w
        (FailsAt-bind w.db _ _ w (FailsAt-transaction _ w) λ r e. FailsAt-count-pure w.db _ r _)
        λ e w₁ same.
          FailsAt-move (event_failed env provider dto request_id hash e w₁) same
            (event_failed-FailsAt hash e w₁)

  after_signature-StaysAt :
      (r : Result Bool) (w : World) → StaysAt w.db (after_signature env provider dto request_id r w)
  unfolding ◌>>=◌ count throw pure
  after_signature-StaysAt (ok b) w = refl
  after_signature-StaysAt (err e) w = refl

  check_event_time-StaysAt :
      (w : World) → StaysAt w.db (check_event_time env provider dto request_id w)
  unfolding check_event_time ◌>>=◌ count throw pure
  check_event_time-StaysAt w = elim (Bool-cases (outside_window env provider dto request_id)) [
    | inl out ↦ rw out refl
    | inr within ↦ rw within refl
  ]

throw_if-StaysAt : (c : Bool) (e : Failure) (w : World) → StaysAt w.db (throw_if c e w)
unfolding throw_if lift
throw_if-StaysAt c e w = refl

module _ (env : Env) (config : ApiConfig) (provider timestamp signature raw_body : Text)
    (dto : PaymentWebhookDto) (request_id : Option Text) where
  handle_webhook-FailsAt :
      (w : World)
      → FailsAt w.db
          (handle_webhook env config provider timestamp signature raw_body dto request_id w)
  unfolding handle_webhook
  handle_webhook-FailsAt w = FailsAt-bind_stays w.db _ _ w (throw_if-StaysAt _ _ w) λ _ w₁ e₁.
      FailsAt-bind_stays w.db _ _ w₁ (after_signature-StaysAt env provider dto request_id _ w₁ ∙ e₁)
        λ _ w₂ e₂.
          FailsAt-bind_stays w.db _ _ w₂
            (check_event_time-StaysAt env provider dto request_id w₂ ∙ e₂)
            λ _ w₃ e₃.
              FailsAt-move (process_event env provider dto request_id (env.sha256 raw_body) w₃) e₃
                (process_event-FailsAt env provider dto request_id (env.sha256 raw_body) w₃)

  -- A webhook that is answered by an error, whichever, leaves every table as it was: what its
  -- transaction wrote is rolled back, and nothing is written outside of it.
  pub handle_webhook_atomic :
      (w w' : World) (e : Failure)
      → handle_webhook env config provider timestamp signature raw_body dto request_id w
        ≡ (err e, w')
      → w'.db ≡ w.db
  handle_webhook_atomic w w' e h = FailsAt_lem w.db _ (handle_webhook-FailsAt w) h

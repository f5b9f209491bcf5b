-- ===== src/Reports/Isolation.antt =====
-- What the handlers of the API that list and count show an actor, and the rows of other merchants.
-- The handler of one invoice (`GET /v1/invoices/:invoiceId`) is not among them: it answers 403 for an
-- invoice of a store out of reach and 404 for one that is not there; Invoices/Get is about it.
use bf_techops.Prelude.{
  ℕ, ◌+◌, ◌≡◌, refl, sym, ap, ◌∙◌, Bool, true, false, ◌&&◌, List, [], ◌∷◌, map, ◌==◌, if◌then◌else◌,
  Bool-cases, inl, inr, arith,
}
use bf_techops.Prelude.Table.{any_row, select, count_where, order_asc}
use bf_techops.Js.{Text}
use bf_techops.Wire.{Uuid, ActorTokenPayload}
use bf_techops.Config.{ApiConfig}
use bf_techops.Persistence.Entities.{OutboxEventEntity, DeliveryAttemptEntity, DeliveryStatus}
use bf_techops.Persistence.Database.{Database, Env}
use bf_techops.MerchantScope.Defs.{has, authorized_merchant_ids}
use bf_techops.Audit.{newest, list_audit}
use bf_techops.Invoices.Defs.{list_invoices}
use bf_techops.Payments.Defs.{list_payments}
use bf_techops.Worker.Relay.{is_pending, is_processing}
use bf_techops.Worker.Delivery.{is_succeeded}
use bf_techops.Reports.{
  is_dead_lettered, count_joined, delivery_count, summary_of, summary, list_stores, store_response,
}

module _ {ℓ} {A : Type ℓ} (p q : A → Bool) where
  count_where-and :
      (rows : List A) → count_where (λ r. p r && q r) rows ≡ count_where q (select p rows)
  unfolding count_where select
  count_where-and [] = refl
  count_where-and (r ∷ rows) = elim (Bool-cases (p r)) [
    | inl c ↦ rw c (omega (arith, count_where-and rows))
    | inr c ↦ rw c (omega (arith, count_where-and rows))
  ]

  select-and : (rows : List A) → select (λ r. p r && q r) rows ≡ select q (select p rows)
  unfolding select
  select-and [] = refl
  select-and (r ∷ rows) = elim (Bool-cases (p r)) [
    | inl c ↦ elim (Bool-cases (q r)) [
      | inl d ↦ rw c (rw d (ap (λ (rest : List A). r ∷ rest) (select-and rows)))
      | inr d ↦ rw c (rw d (select-and rows))
    ]
    | inr c ↦ rw c (select-and rows)
  ]

module _ {ℓ} {A : Type ℓ} (p : A → Bool) where
  count_where-select :
      (rows : List A) → count_where p rows ≡ count_where (λ r. true) (select p rows)
  unfolding count_where select
  count_where-select [] = refl
  count_where-select (r ∷ rows) = elim (Bool-cases (p r)) [
    | inl c ↦ rw c (omega (arith, count_where-select rows))
    | inr c ↦ rw c (omega (arith, count_where-select rows))
  ]

  none_counted : (rows : List A) → any_row p rows ≡ false → count_where p rows ≡ 0
  unfolding any_row count_where
  none_counted [] h = refl
  none_counted (r ∷ rows) h = ground (arith, none_counted rows)

nothing : (c : Bool) {a b : ℕ} → a ≡ b → (if c then 0 else 0) + a ≡ b
nothing true h = omega (arith, h)
nothing false h = omega (arith, h)

-- A delivery of an event of these merchants.
abbrev pub own_delivery : List Uuid → List OutboxEventEntity → DeliveryAttemptEntity → Bool
own_delivery ids events d = any_row (λ e. has ids e.merchant_id && e.id == d.event_id) events

module _ (ids : List Uuid) (q : DeliveryAttemptEntity → Bool) where
  joined : List OutboxEventEntity → List DeliveryAttemptEntity → ℕ
  joined own [] = 0
  joined own (d ∷ deliveries) =
      (if q d then count_where (λ e. e.id == d.event_id) own else 0) + joined own deliveries

  joined_own :
      (events : List OutboxEventEntity) (deliveries : List DeliveryAttemptEntity)
      → count_joined (λ e. has ids e.merchant_id) q events deliveries
        ≡ joined
            (select (λ e. has ids e.merchant_id) events)
            (select (own_delivery ids events) deliveries)
  unfolding count_joined joined select
  joined_own events [] = refl
  joined_own events (d ∷ deliveries) =
      let one = count_where-and (λ e. has ids e.merchant_id) (λ e. e.id == d.event_id) events in
      elim (Bool-cases (own_delivery ids events d)) [
        | inl c ↦ rw c (rw one (omega (arith, joined_own events deliveries)))
        | inr c ↦ rw c (
            rw (none_counted (λ e. has ids e.merchant_id && e.id == d.event_id) events c)
              (nothing (q d) (joined_own events deliveries)))
      ]

-- Two databases with the same merchants and the same rows of these merchants.
pub record Agrees (ids : List Uuid) (db db' : Database) : Type 0 where
  pub merchants : db.merchants ≡ db'.merchants
  pub stores :
      select (λ r. has ids r.merchant_id) db.stores ≡ select (λ r. has ids r.merchant_id) db'.stores
  pub invoices :
      select (λ r. has ids r.merchant_id) db.invoices
      ≡ select (λ r. has ids r.merchant_id) db'.invoices
  pub payments :
      select (λ r. has ids r.merchant_id) db.payments
      ≡ select (λ r. has ids r.merchant_id) db'.payments
  pub refunds :
      select (λ r. has ids r.merchant_id) db.refunds
      ≡ select (λ r. has ids r.merchant_id) db'.refunds
  pub events :
      select (λ r. has ids r.merchant_id) db.outbox_events
      ≡ select (λ r. has ids r.merchant_id) db'.outbox_events
  pub deliveries :
      select (own_delivery ids db.outbox_events) db.delivery_attempts
      ≡ select (own_delivery ids db'.outbox_events) db'.delivery_attempts
  pub audits :
      select (λ r. has ids r.merchant_id) db.audit_events
      ≡ select (λ r. has ids r.merchant_id) db'.audit_events

module _ (ids : List Uuid) (db db' : Database) (agrees : Agrees ids db db') where
  same_deliveries :
      (is_status : DeliveryStatus → Bool)
      → delivery_count ids is_status db ≡ delivery_count ids is_status db'
  unfolding delivery_count
  same_deliveries is_status =
      joined_own ids (λ d. is_status d.status) db.outbox_events db.delivery_attempts
      ∙ rw agrees.events (rw agrees.deliveries refl)
      ∙ sym (joined_own ids (λ d. is_status d.status) db'.outbox_events db'.delivery_attempts)

  same_count {ℓ} :
      {A : Type ℓ} (p : A → Bool) (rows rows' : List A)
      → select p rows ≡ select p rows'
      → count_where p rows ≡ count_where p rows'
  same_count p rows rows' same =
      count_where-select p rows ∙ rw same refl ∙ sym (count_where-select p rows')

  same_events :
      (q : OutboxEventEntity → Bool)
      → select (λ r. has ids r.merchant_id && q r) db.outbox_events
        ≡ select (λ r. has ids r.merchant_id && q r) db'.outbox_events
  same_events q =
      select-and (λ r. has ids r.merchant_id) q db.outbox_events
      ∙ rw agrees.events refl
      ∙ sym (select-and (λ r. has ids r.merchant_id) q db'.outbox_events)

  same_summary :
      (env : Env) (config : ApiConfig)
      → summary_of env config db ids ≡ summary_of env config db' ids
  unfolding summary_of
  same_summary env config =
      rw (same_count (λ r. has ids r.merchant_id) db.invoices db'.invoices agrees.invoices) (
        rw (same_count (λ r. has ids r.merchant_id) db.payments db'.payments agrees.payments) (
          rw (same_count (λ r. has ids r.merchant_id) db.refunds db'.refunds agrees.refunds) (
            rw
              (same_count (λ r. has ids r.merchant_id && is_pending r.status) db.outbox_events
                db'.outbox_events (same_events (λ r. is_pending r.status)))
              (rw
                (same_count (λ r. has ids r.merchant_id && is_processing r.status) db.outbox_events
                  db'.outbox_events (same_events (λ r. is_processing r.status)))
                (rw (same_events (λ r. is_pending r.status)) (
                  rw (same_deliveries is_succeeded)
                    (rw (same_deliveries is_dead_lettered) refl)))))))

same_stores :
    (ids : List Uuid) (db db' : Database)
    → Agrees ids db db'
    → select (λ s. has ids s.merchant_id && s.active) db.stores
      ≡ select (λ s. has ids s.merchant_id && s.active) db'.stores
same_stores ids db db' agrees =
    select-and (λ s. has ids s.merchant_id) (λ s. s.active) db.stores
    ∙ rw agrees.stores refl
    ∙ sym (select-and (λ s. has ids s.merchant_id) (λ s. s.active) db'.stores)

same_ids :
    (db db' : Database) (actor : ActorTokenPayload)
    → db.merchants ≡ db'.merchants
    → authorized_merchant_ids db actor.actor_merchant_id
      ≡ authorized_merchant_ids db' actor.actor_merchant_id
unfolding authorized_merchant_ids
same_ids db db' actor same = rw same refl

-- What the five handlers of the API that list and count show an actor (the figures of the operations,
-- and the lists of stores, invoices, payments and audit events; not the handler of one invoice) is the
-- same on any two databases that have the same merchants, and the same rows of the
-- merchants that the actor is authorized for: it depends on no row of any other merchant.
pub reads-Agrees :
    (env : Env) (config : ApiConfig) (rank : Text → ℕ) (actor : ActorTokenPayload) (limit : ℕ)
    (db db' : Database)
    → Agrees (authorized_merchant_ids db actor.actor_merchant_id) db db'
    → (summary env config db actor ≡ summary env config db' actor)
      × (list_stores rank db actor ≡ list_stores rank db' actor)
      × (list_invoices db actor limit ≡ list_invoices db' actor limit)
      × (list_payments db actor limit ≡ list_payments db' actor limit)
      × (list_audit db actor limit ≡ list_audit db' actor limit)
unfolding summary list_stores list_invoices list_payments list_audit newest
reads-Agrees env config rank actor limit db db' agrees =
    let ids = authorized_merchant_ids db actor.actor_merchant_id in
    let same = sym (same_ids db db' actor agrees.merchants) in
    (
      rw same (same_summary ids db db' agrees env config),
      rw same (
          ap (λ l. map store_response (order_asc (λ s. rank s.name) l))
            (same_stores ids db db' agrees)),
      rw same (rw agrees.invoices refl),
      rw same (rw agrees.payments refl),
      rw same (rw agrees.audits refl),
    )

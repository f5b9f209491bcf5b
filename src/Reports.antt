-- ===== src/Reports.antt =====
-- apps/api/src/ops/ops.controller.ts and apps/api/src/merchants/merchant.controller.ts: the figures
-- of an actor's merchants, and their stores. The order of names under the collation of their column
-- comes from outside.
pub mod Isolation
use bf_techops.Prelude.{
  ℕ, ◌+◌, Bool, true, false, ◌&&◌, Option, none, some, List, [], ◌∷◌, map, ◌==◌, if◌then◌else◌,
}
use bf_techops.Prelude.Table.{select, count_where, order_asc}
use bf_techops.Js.{Text}
use bf_techops.Wire.{Uuid, Time, ActorTokenPayload}
use bf_techops.Config.{ApiConfig}
use bf_techops.Persistence.Entities.{
  StoreEntity, OutboxEventEntity, OutboxStatus, DeliveryAttemptEntity, DeliveryStatus,
}
use bf_techops.Persistence.Database.{Database, Env}
use bf_techops.MerchantScope.Defs.{has, authorized_merchant_ids}
use bf_techops.Worker.Relay.{is_pending, is_processing}
use bf_techops.Worker.Delivery.{is_succeeded}

pub record OpsSummary : Type 0 where
  pub release : Text
  pub environment : Text
  pub invoices : ℕ
  pub payments : ℕ
  pub refunds : ℕ
  pub pending_outbox : ℕ
  pub processing_outbox : ℕ
  pub successful_deliveries : ℕ
  pub dead_letters : ℕ
  pub oldest_pending_outbox_at : Option Time
  pub generated_at : Time

abbrev pub is_dead_lettered : DeliveryStatus → Bool
is_dead_lettered DeliveryStatus.succeeded = false
is_dead_lettered DeliveryStatus.retrying = false
is_dead_lettered DeliveryStatus.dead_lettered = true

-- The pairs of a delivery and its event: `INNER JOIN … ON event.id = delivery.event_id`.
unfoldable pub count_joined :
    (OutboxEventEntity → Bool)
    → (DeliveryAttemptEntity → Bool)
    → List OutboxEventEntity
    → List DeliveryAttemptEntity
    → ℕ
count_joined p q events [] = 0
count_joined p q events (d ∷ deliveries) =
    (if q d then count_where (λ e. p e && e.id == d.event_id) events else 0)
    + count_joined p q events deliveries

-- `deliveryCount`
unfoldable pub delivery_count : List Uuid → (DeliveryStatus → Bool) → Database → ℕ
delivery_count ids is_status db =
    count_joined (λ e. has ids e.merchant_id) (λ d. is_status d.status) db.outbox_events
      db.delivery_attempts

abbrev pub created_of_first : List OutboxEventEntity → Option Time
created_of_first [] = none
created_of_first (e ∷ events) = some e.created_at

unfoldable pub summary_of : Env → ApiConfig → Database → List Uuid → OpsSummary
summary_of env config db ids = record {
  release = config.release_version;
  environment = config.node_env;
  invoices = count_where (λ r. has ids r.merchant_id) db.invoices;
  payments = count_where (λ r. has ids r.merchant_id) db.payments;
  refunds = count_where (λ r. has ids r.merchant_id) db.refunds;
  pending_outbox = count_where (λ r. has ids r.merchant_id && is_pending r.status) db.outbox_events;
  processing_outbox =
      count_where (λ r. has ids r.merchant_id && is_processing r.status) db.outbox_events;
  successful_deliveries = delivery_count ids is_succeeded db;
  dead_letters = delivery_count ids is_dead_lettered db;
  oldest_pending_outbox_at = created_of_first (
      order_asc (λ r. r.created_at)
        (select (λ r. has ids r.merchant_id && is_pending r.status) db.outbox_events));
  generated_at = env.now;
}

-- The handler of `GET /v1/ops/summary`.
unfoldable pub summary : Env → ApiConfig → Database → ActorTokenPayload → OpsSummary
summary env config db actor =
    summary_of env config db (authorized_merchant_ids db actor.actor_merchant_id)

pub record StoreResponse : Type 0 where
  pub id : Uuid
  pub merchant_id : Uuid
  pub code : Text
  pub name : Text
  pub timezone : Text

abbrev pub store_response : StoreEntity → StoreResponse
store_response s = record {
  id = s.id;
  merchant_id = s.merchant_id;
  code = s.code;
  name = s.name;
  timezone = s.timezone;
}

-- The handler of `GET /v1/stores`.
unfoldable pub list_stores : (Text → ℕ) → Database → ActorTokenPayload → List StoreResponse
list_stores rank db actor =
    let ids = authorized_merchant_ids db actor.actor_merchant_id in
    map store_response
      (order_asc (λ s. rank s.name) (select (λ s. has ids s.merchant_id && s.active) db.stores))

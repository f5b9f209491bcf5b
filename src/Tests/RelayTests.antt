-- ===== src/Tests/RelayTests.antt =====
-- The outbox relay.
use bf_techops.Prelude.{
  ◌≡◌, refl, true, false, none, some, List, [], ◌∷◌, map, ◌==◌, All, if◌then◌else◌, arith,
}
use bf_techops.Prelude.Table.{select, insert_asc, order_asc, update_where, any_row}
use bf_techops.Js.{codes}
use bf_techops.Wire.{EventPayload, paid}
use bf_techops.Persistence.Entities.{OutboxEventEntity, OutboxStatus}
use bf_techops.Persistence.Database.{Database}
use bf_techops.MerchantScope.Defs.{has}
use bf_techops.Worker.Config.{WorkerConfig, ProviderKind}
use bf_techops.Worker.Fault.{Fault, done}
use bf_techops.Worker.Relay.{
  RelayEnv, RelayWorld, claimable, selected, ids_of, set_claimed, claim, poll, publish_all,
  publish_one, add_job, job_of, reconcile_published, reconcilable, add_all_jobs, update_metrics,
  is_settled,
}
use bf_techops.Worker.Relay.Claim.{Chosen, IsLeased, AllLeased, claim-Chosen}
use bf_techops.Worker.Relay.Lease.{Poller, relays_poll, claim-exclusive}
use bf_techops.Worker.Relay.Poll.{after_poll, InQueue, poll_hands_over}
use bf_techops.Tests.Fixtures.{db}

abbrev pub worker_config : WorkerConfig
worker_config = record {
  redis_host = codes "redis";
  redis_port = 6379;
  redis_tls = false;
  redis_password = none;
  poll_interval_ms = 1000;
  max_attempts = 5;
  base_delay_ms = 1000;
  concurrency = 8;
  metrics_port = 9091;
  provider = ProviderKind.webhook;
  provider_url = some (codes "u");
  provider_api_key = some (codes "k");
  release_version = codes "1";
  idempotency_retention_days = 7;
  outbox_retention_days = 30;
  webhook_receipt_retention_days = 400;
}

abbrev pub refused : Fault
refused = record { message = codes "Data too long"; code = some (codes "ER_DATA_TOO_LONG") }

abbrev relay_env : RelayEnv
relay_env = record {
  now = 100_000;
  locked = λ id. false;
  add = λ id. none;
  refused = refused;
  waiting = 0;
  failed = 0;
}

-- The queue refuses event 2.
abbrev refusing_env : RelayEnv
refusing_env = record relay_env { add = λ id. if id == 2 then some refused else none }

abbrev pub payload : EventPayload
payload = record {
  event_id = 1;
  invoice_id = 50;
  merchant_id = 2;
  store_id = 20;
  customer_name = codes "Ada";
  customer_contact = codes "a";
  currency = codes "INR";
  total_minor = 1180;
  status = paid;
  issued_at = 5;
  provider_event_id = none;
  payment_amount_minor = none;
}

abbrev pub first_event : OutboxEventEntity
first_event = record {
  id = 1;
  aggregate_type = "invoice";
  aggregate_id = 50;
  merchant_id = 2;
  event_type = "invoice.paid";
  payload = payload;
  status = OutboxStatus.pending;
  attempts = 0;
  available_at = 10;
  lock_until = none;
  published_at = none;
  last_error = none;
  created_at = 20;
}

-- Its lease has ended.
abbrev second_event : OutboxEventEntity
second_event = record first_event {
  id = 2;
  status = OutboxStatus.processing;
  lock_until = some 50;
  created_at = 10;
}

abbrev late_event : OutboxEventEntity
late_event = record first_event { id = 3; available_at = 200_000 }

abbrev events_db : Database
events_db = record db { outbox_events = first_event ∷ second_event ∷ late_event ∷ [] }

abbrev relay_world : RelayWorld
relay_world = record {
  db = events_db;
  jobs = [];
  polling = false;
  outbox_claimed = 0;
  outbox_oldest_age = 0;
  queue_waiting = 0;
  queue_failed = 0;
}

-- The older event comes first.
abbrev both : List OutboxEventEntity
both = second_event ∷ first_event ∷ []

abbrev claimed_db : Database
claimed_db = set_claimed relay_env both events_db

claims : claim relay_env 25 events_db ≡ (done both, claimed_db)
unfolding claim selected claimable select insert_asc order_asc update_where
claims = refl

-- A relay that takes one event, and another that polls after it.
abbrev one : List OutboxEventEntity
one = second_event ∷ []

abbrev one_db : Database
one_db = set_claimed relay_env one events_db

abbrev other_one : List OutboxEventEntity
other_one = first_event ∷ []

claims_one : claim relay_env 1 events_db ≡ (done one, one_db)
unfolding claim selected claimable select insert_asc order_asc update_where
claims_one = refl

claim-Chosen_example :
    Chosen relay_env 25 events_db both
    × All (λ r. has (ids_of both) r.id ≡ true → IsLeased relay_env r) claimed_db.outbox_events
claim-Chosen_example = claim-Chosen relay_env 25 events_db claimed_db both claims

-- Another relay polls and publishes the event that is left; a third one finds nothing to claim.
abbrev pollers : List Poller
pollers = (relay_env, worker_config, relay_world) ∷ []

abbrev polled_db : Database
polled_db = record one_db {
  outbox_events = map (after_poll relay_env worker_config other_one) one_db.outbox_events;
}

relay_polls : relays_poll pollers one_db ≡ polled_db
unfolding relays_poll poll claim selected claimable select insert_asc order_asc update_where
    publish_all publish_one add_job job_of reconcile_published reconcilable add_all_jobs
    update_metrics is_settled any_row
relay_polls = refl

claims_none : claim relay_env 25 polled_db ≡ (done [], polled_db)
unfolding claim selected claimable select insert_asc order_asc update_where
claims_none = refl

claim-exclusive_example :
    AllLeased relay_env one (relays_poll pollers one_db)
    × All (λ (e : OutboxEventEntity). has (ids_of one) e.id ≡ false) []
claim-exclusive_example =
    claim-exclusive relay_env relay_env 1 25 events_db one_db polled_db one [] pollers claims_one
      (omega arith, tt) (omega arith) (rw relay_polls claims_none)

refusing_claims : claim refusing_env 25 events_db ≡ (done both, claimed_db)
unfolding claim selected claimable select insert_asc order_asc update_where
refusing_claims = refl

poll_hands_over_example :
    ((poll refusing_env worker_config relay_world).1.outbox_events
      ≡ map (after_poll refusing_env worker_config both) events_db.outbox_events)
    × All
        (InQueue refusing_env worker_config (poll refusing_env worker_config relay_world).1.jobs)
        both
    × ((poll refusing_env worker_config relay_world).1.polling ≡ false)
poll_hands_over_example =
    poll_hands_over refusing_env worker_config relay_world both claimed_db refl refusing_claims

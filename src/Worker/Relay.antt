-- ===== src/Worker/Relay.antt =====
-- apps/worker/src/outbox-relay.ts: OutboxRelay. The queue is a library's: what `add` throws for an
-- event, if it does, and the job counts come from outside. A statement on the tables does not fail
-- but where a value does not fit its column.
pub mod Claim
pub mod Poll
pub mod Drain
pub mod Lease
use bf_techops.Prelude.{
  ℕ, ◌+◌, ◌-◌, ◌*◌, Bool, true, false, not, ◌&&◌, ◌||◌, Option, none, some, List, [], ◌∷◌, map,
  length, take, any, ltb, leb, ◌==◌, if◌then◌else◌,
}
use bf_techops.Prelude.Table.{any_row, update_where, select, order_asc}
use bf_techops.Js.{Text}
use bf_techops.Wire.{Uuid, Time, EventPayload}
use bf_techops.Persistence.Entities.{
  OutboxEventEntity, OutboxStatus, DeliveryAttemptEntity, DeliveryStatus,
}
use bf_techops.Persistence.Database.{Database}
use bf_techops.Persistence.Insert.{max_smallint}
use bf_techops.MerchantScope.Defs.{has}
use bf_techops.Worker.Config.{WorkerConfig}
use bf_techops.Worker.Fault.{Fault, Run, done, threw}

-- A job of the queue, with the options that the relay passes; those that keep finished jobs are left
-- out.
pub record Job : Type 0 where
  pub job_id : Uuid
  pub event : EventPayload
  pub attempts : ℕ
  pub backoff_delay : ℕ

-- What the relay takes from outside for one poll: the clock, the rows that other relays have locked,
-- what `queue.add` throws, the error of a value that does not fit, and the job counts.
pub record RelayEnv : Type 0 where
  pub now : Time
  pub locked : Uuid → Bool
  pub add : Uuid → Option Fault
  pub refused : Fault
  pub waiting : ℕ
  pub failed : ℕ

pub record RelayWorld : Type 0 where
  pub db : Database
  pub open db use *
  -- the calls of `queue.add` that went through, the last one first
  pub jobs : List Job
  pub polling : Bool
  pub outbox_claimed : ℕ
  -- in milliseconds
  pub outbox_oldest_age : ℕ
  pub queue_waiting : ℕ
  pub queue_failed : ℕ

abbrev pub is_pending : OutboxStatus → Bool
is_pending OutboxStatus.pending = true
is_pending OutboxStatus.processing = false
is_pending OutboxStatus.published = false

abbrev pub is_processing : OutboxStatus → Bool
is_processing OutboxStatus.pending = false
is_processing OutboxStatus.processing = true
is_processing OutboxStatus.published = false

abbrev pub is_published : OutboxStatus → Bool
is_published OutboxStatus.pending = false
is_published OutboxStatus.processing = false
is_published OutboxStatus.published = true

-- `column < :time`, which NULL is not
abbrev pub before : Option Time → Time → Bool
before none time = false
before (some t) time = ltb t time

-- The WHERE clause of `claim`, for the rows that no other relay has locked.
unfoldable pub claimable : RelayEnv → OutboxEventEntity → Bool
claimable env r =
    not (env.locked r.id)
    && leb r.available_at env.now
    && (is_pending r.status || (is_processing r.status && before r.lock_until env.now))

unfoldable pub selected : RelayEnv → ℕ → Database → List OutboxEventEntity
selected env limit db =
    take limit (order_asc (λ r. r.created_at) (select (claimable env) db.outbox_events))

abbrev pub ids_of : List OutboxEventEntity → List Uuid
ids_of events = map (λ r. r.id) events

abbrev pub with_claim : RelayEnv → OutboxEventEntity → OutboxEventEntity
with_claim env r = record r {
  status = OutboxStatus.processing;
  lock_until = some (env.now + 30_000);
  attempts = r.attempts + 1;
}

abbrev pub set_claimed : RelayEnv → List OutboxEventEntity → Database → Database
set_claimed env events db = record db {
  outbox_events = update_where (λ r. has (ids_of events) r.id) (with_claim env) db.outbox_events;
}

-- `claim`; the UPDATE fails if a number of attempts does not fit its column.
unfoldable pub claim : RelayEnv → ℕ → Database → Run (List OutboxEventEntity) × Database
claim env limit db =
    let events = selected env limit db in
    if any (λ r. leb max_smallint r.attempts) events
    then (threw env.refused, db)
    else (done events, set_claimed env events db)

unfoldable pub job_of : WorkerConfig → OutboxEventEntity → Job
job_of config event = record {
  job_id = event.id;
  event = event.payload;
  attempts = config.max_attempts;
  backoff_delay = config.base_delay_ms;
}

abbrev pub added :
    WorkerConfig → OutboxEventEntity → Option Fault → RelayWorld → Run (Unit {0}) × RelayWorld
added config event none w = (done tt, record w { jobs = job_of config event ∷ w.jobs })
added config event (some fault) w = (threw fault, w)

-- `queue.add("deliver-invoice-notification", …)`
unfoldable pub add_job :
    RelayEnv → WorkerConfig → OutboxEventEntity → RelayWorld → Run (Unit {0}) × RelayWorld
add_job env config event w = added config event (env.add event.id) w

-- `{ id: event.id, status: PROCESSING }`
abbrev pub is_held : Uuid → OutboxEventEntity → Bool
is_held id r = r.id == id && is_processing r.status

abbrev pub as_published : RelayEnv → OutboxEventEntity → OutboxEventEntity
as_published env r = record r {
  status = OutboxStatus.published;
  published_at = some env.now;
  lock_until = none;
  last_error = none;
}

abbrev pub as_released : RelayEnv → WorkerConfig → Fault → OutboxEventEntity → OutboxEventEntity
as_released env config fault r = record r {
  status = OutboxStatus.pending;
  available_at = env.now + config.base_delay_ms;
  lock_until = none;
  last_error = some (take 1000 fault.message);
}

abbrev pub set_event : Uuid → (OutboxEventEntity → OutboxEventEntity) → RelayWorld → RelayWorld
set_event id f w = record w {
  db = record w.db { outbox_events = update_where (is_held id) f w.outbox_events };
}

abbrev pub after_add :
    RelayEnv → WorkerConfig → OutboxEventEntity → Run (Unit {0}) × RelayWorld → RelayWorld
after_add env config event (done u, w) = set_event event.id (as_published env) w
after_add env config event (threw fault, w) = set_event event.id (as_released env config fault) w

-- The body of the loop over the claimed events, its `try` and its `catch`.
unfoldable pub publish_one : RelayEnv → WorkerConfig → OutboxEventEntity → RelayWorld → RelayWorld
publish_one env config event w = after_add env config event (add_job env config event w)

unfoldable pub publish_all :
    RelayEnv → WorkerConfig → List OutboxEventEntity → RelayWorld → RelayWorld
publish_all env config [] w = w
publish_all env config (event ∷ events) w =
    publish_all env config events (publish_one env config event w)

abbrev pub is_terminal : DeliveryStatus → Bool
is_terminal DeliveryStatus.succeeded = true
is_terminal DeliveryStatus.retrying = false
is_terminal DeliveryStatus.dead_lettered = true

-- A delivery of the event that has ended, well or not.
unfoldable pub is_settled : List DeliveryAttemptEntity → Uuid → Bool
is_settled attempts event_id =
    any_row (λ a. a.event_id == event_id && is_terminal a.status) attempts

-- `published_at < now - age`
abbrev pub older : ℕ → Time → Option Time → Bool
older age now none = false
older age now (some t) = ltb (t + age) now

unfoldable pub reconcilable : RelayEnv → Database → OutboxEventEntity → Bool
reconcilable env db r =
    is_published r.status
    && not (is_settled db.delivery_attempts r.id)
    && older 30_000 env.now r.published_at

abbrev pub time_or_zero : Option Time → ℕ
time_or_zero none = 0
time_or_zero (some t) = t

abbrev pub go_on :
    (RelayWorld → Run (Unit {0}) × RelayWorld)
    → Run (Unit {0}) × RelayWorld
    → Run (Unit {0}) × RelayWorld
go_on next (done u, w) = next w
go_on next (threw fault, w) = (threw fault, w)

-- The loop of `reconcilePublished`: what `queue.add` throws ends it.
unfoldable pub add_all_jobs :
    RelayEnv → WorkerConfig → List OutboxEventEntity → RelayWorld → Run (Unit {0}) × RelayWorld
add_all_jobs env config [] w = (done tt, w)
add_all_jobs env config (event ∷ events) w =
    go_on (add_all_jobs env config events) (add_job env config event w)

unfoldable pub reconcile_published :
    RelayEnv → WorkerConfig → ℕ → RelayWorld → Run (Unit {0}) × RelayWorld
reconcile_published env config limit w =
    add_all_jobs env config
      (take limit (
        order_asc (λ r. time_or_zero r.published_at)
          (select (reconcilable env w.db) w.outbox_events)))
      w

abbrev pub age_of_first : Time → List OutboxEventEntity → ℕ
age_of_first now [] = 0
age_of_first now (oldest ∷ events) = now - oldest.created_at

unfoldable pub update_metrics : RelayEnv → RelayWorld → RelayWorld
update_metrics env w = record w {
  outbox_oldest_age = age_of_first env.now (
      order_asc (λ r. r.created_at)
        (select (λ r. is_pending r.status && ltb r.created_at env.now) w.outbox_events));
  queue_waiting = env.waiting;
  queue_failed = env.failed;
}

abbrev pub with_metrics : RelayEnv → Run (Unit {0}) × RelayWorld → Run (Unit {0}) × RelayWorld
with_metrics env (done u, w) = (done tt, update_metrics env w)
with_metrics env (threw fault, w) = (threw fault, w)

-- The `try` block of `poll`, after `claim`.
abbrev pub after_claim :
    RelayEnv
    → WorkerConfig
    → RelayWorld
    → Run (List OutboxEventEntity) × Database
    → Run (Unit {0}) × RelayWorld
after_claim env config w (threw fault, db) = (threw fault, record w { db = db })
after_claim env config w (done events, db) = with_metrics env (
    reconcile_published env config 100 (
      publish_all env config events
        (record w { db = db; outbox_claimed = w.outbox_claimed + length events })))

-- `finally { this.polling = false }`
abbrev pub finally : Run (Unit {0}) × RelayWorld → Run (Unit {0}) × RelayWorld
finally (r, w) = (r, record w { polling = false })

-- `poll`
unfoldable pub poll : RelayEnv → WorkerConfig → RelayWorld → Run (Unit {0}) × RelayWorld
poll env config w =
    if w.polling
    then (done tt, w)
    else finally (after_claim env config (record w { polling = true }) (claim env 25 w.db))

-- ===== src/Worker/Delivery.antt =====
-- apps/worker/src/main.ts: the processor of the jobs of the queue, and the handler of failed jobs.
pub mod Provider
pub mod Once
pub mod Record
pub mod Attempt
use bf_techops.Prelude.{
  ℕ, ◌+◌, Bool, true, false, not, ◌&&◌, ◌||◌, Option, none, some, List, [], ◌∷◌, ◌++◌, length, take,
  leb, ◌==◌, if◌then◌else◌,
}
use bf_techops.Prelude.Table.{any_row, find_one, update_where}
use bf_techops.Js.{Text, codes}
use bf_techops.Wire.{Uuid, Time, EventPayload}
use bf_techops.Persistence.Entities.{DeliveryAttemptEntity, DeliveryStatus}
use bf_techops.Persistence.Database.{Database}
use bf_techops.Worker.Config.{ProviderKind, WorkerConfig}
use bf_techops.Worker.Delivery.Provider.{DeliveryEnv, send}
use bf_techops.Worker.Fault.{Fault, Run, done, threw}

-- The job that runs: `job.data`, `job.attemptsMade` and `job.opts.attempts`.
pub record JobRun : Type 0 where
  pub data_event : EventPayload
  pub attempts_made : ℕ
  pub attempts : Option ℕ

pub data Outcome : Type 0 where
  deduplicated succeeded retrying dead_lettered : Outcome

pub record DeliveryWorld : Type 0 where
  pub db : Database
  pub open db use *
  -- the next value of the column `id`
  pub next_id : ℕ
  -- the events for which `send` returned, the last one first
  pub notified : List Uuid
  -- the events that the dead-letter queue was given, the last one first
  pub dead_letters : List EventPayload
  pub deliveries : List Outcome

abbrev pub is_succeeded : DeliveryStatus → Bool
is_succeeded DeliveryStatus.succeeded = true
is_succeeded DeliveryStatus.retrying = false
is_succeeded DeliveryStatus.dead_lettered = false

-- `findOne({ where: { eventId, status: SUCCEEDED } })`, whether there is one.
unfoldable pub already_delivered : Uuid → List DeliveryAttemptEntity → Bool
already_delivered event_id attempts =
    any_row (λ a. a.event_id == event_id && is_succeeded a.status) attempts

-- The values of an upsert of delivery_attempts.
pub record AttemptValues : Type 0 where
  pub event_id : Uuid
  pub attempt_number : ℕ
  pub status : DeliveryStatus
  pub provider_reference : Option Text
  pub error_code : Option Text
  pub error_message : Option Text

abbrev pub fits : ℕ → Option Text → Bool
fits n none = true
fits n (some s) = leb (length s) n

-- The columns of the values, for texts with one code unit for each character: `smallint unsigned`, varchar(160), varchar(80) and varchar(1000).
unfoldable pub attempt_fits : AttemptValues → Bool
attempt_fits v =
    leb v.attempt_number 65_535
    && fits 160 v.provider_reference
    && fits 80 v.error_code
    && fits 1000 v.error_message

abbrev pub same_attempt : AttemptValues → DeliveryAttemptEntity → Bool
same_attempt v a = a.event_id == v.event_id && a.attempt_number == v.attempt_number

abbrev pub overwritten : AttemptValues → DeliveryAttemptEntity → DeliveryAttemptEntity
overwritten v a = record a {
  status = v.status;
  provider_reference = v.provider_reference;
  error_code = v.error_code;
  error_message = v.error_message;
}

abbrev pub new_attempt : DeliveryEnv → ℕ → AttemptValues → DeliveryAttemptEntity
new_attempt env id v = record {
  id = id;
  event_id = v.event_id;
  attempt_number = v.attempt_number;
  status = v.status;
  provider_reference = v.provider_reference;
  error_code = v.error_code;
  error_message = v.error_message;
  created_at = env.now;
}

abbrev pub set_attempts : List DeliveryAttemptEntity → DeliveryWorld → DeliveryWorld
set_attempts attempts w = record w {
  db = record w.db { delivery_attempts = attempts };
  next_id = w.next_id + 1;
}

-- `upsert(values, ["eventId", "attemptNumber"])`: an INSERT … ON DUPLICATE KEY UPDATE.
unfoldable pub upsert : DeliveryEnv → AttemptValues → DeliveryWorld → Run (Unit {0}) × DeliveryWorld
upsert env v w =
    if not (attempt_fits v)
    then (threw env.refused, w)
    else if any_row (same_attempt v) w.delivery_attempts
    then (
      done tt,
      set_attempts (update_where (same_attempt v) (overwritten v) w.delivery_attempts) w,
    )
    else (done tt, set_attempts (new_attempt env w.next_id v ∷ w.delivery_attempts) w)

abbrev pub count_delivery : Outcome → DeliveryWorld → DeliveryWorld
count_delivery outcome w = record w { deliveries = outcome ∷ w.deliveries }

-- `code(error)`
unfoldable pub error_code_of : Fault → Text
error_code_of fault = elim fault.code [ none ↦ codes "DELIVERY_FAILED" | some c ↦ c ]

abbrev pub or_one : Option ℕ → ℕ
or_one none = 1
or_one (some n) = n

-- `attemptNumber`
abbrev pub attempt_number_of : JobRun → ℕ
attempt_number_of job = job.attempts_made + 1

unfoldable pub final_attempt : JobRun → Bool
final_attempt job = leb (or_one job.attempts) (attempt_number_of job)

unfoldable pub success_values : JobRun → Text → AttemptValues
success_values job reference = record {
  event_id = job.data_event.event_id;
  attempt_number = attempt_number_of job;
  status = DeliveryStatus.succeeded;
  provider_reference = some reference;
  error_code = none;
  error_message = none;
}

unfoldable pub failure_values : JobRun → Fault → AttemptValues
failure_values job fault = record {
  event_id = job.data_event.event_id;
  attempt_number = attempt_number_of job;
  status = if final_attempt job then DeliveryStatus.dead_lettered else DeliveryStatus.retrying;
  provider_reference = none;
  error_code = some (error_code_of fault);
  error_message = some (take 1000 fault.message);
}

-- After the upsert of the `try` block.
abbrev pub after_success : Run (Unit {0}) × DeliveryWorld → Run (Unit {0}) × DeliveryWorld
after_success (done u, w) = (done tt, count_delivery Outcome.succeeded w)
after_success (threw fault, w) = (threw fault, w)

abbrev pub after_send :
    DeliveryEnv → JobRun → Run Text → DeliveryWorld → Run (Unit {0}) × DeliveryWorld
after_send env job (threw fault) w = (threw fault, w)
after_send env job (done reference) w = after_success (
    upsert env (success_values job reference)
      (record w { notified = job.data_event.event_id ∷ w.notified }))

-- The `try` block.
unfoldable pub try_delivery :
    DeliveryEnv → WorkerConfig → JobRun → DeliveryWorld → Run (Unit {0}) × DeliveryWorld
try_delivery env config job w =
    if already_delivered job.data_event.event_id w.delivery_attempts
    then (done tt, count_delivery Outcome.deduplicated w)
    else after_send env job (send env config job.data_event) w

abbrev pub after_failure :
    JobRun → Fault → Run (Unit {0}) × DeliveryWorld → Run (Unit {0}) × DeliveryWorld
after_failure job fault (threw other, w) = (threw other, w)
after_failure job fault (done u, w) = (
  threw fault,
  count_delivery (if final_attempt job then Outcome.dead_lettered else Outcome.retrying) w,
)

-- The `catch` block.
unfoldable pub record_failure :
    DeliveryEnv → JobRun → Fault → DeliveryWorld → Run (Unit {0}) × DeliveryWorld
record_failure env job fault w = after_failure job fault (upsert env (failure_values job fault) w)

abbrev pub caught :
    DeliveryEnv → JobRun → Run (Unit {0}) × DeliveryWorld → Run (Unit {0}) × DeliveryWorld
caught env job (done u, w) = (done tt, w)
caught env job (threw fault, w) = record_failure env job fault w

-- The processor of one job, for one of its attempts.
unfoldable pub deliver :
    DeliveryEnv → WorkerConfig → JobRun → DeliveryWorld → Run (Unit {0}) × DeliveryWorld
deliver env config job w = caught env job (try_delivery env config job w)

-- `worker.on("failed", …)`, for a job with `attempts_made` attempts, the failed one counted.
unfoldable pub on_failed : JobRun → DeliveryWorld → DeliveryWorld
on_failed job w =
    if leb (or_one job.attempts) job.attempts_made
    then record w { dead_letters = job.data_event ∷ w.dead_letters }
    else w

-- The job after one more attempt.
abbrev pub made : JobRun → JobRun
made job = record job { attempts_made = job.attempts_made + 1 }

-- Some runs, one after the other, with what each takes from outside.
unfoldable pub deliver_all :
    WorkerConfig → List (DeliveryEnv × JobRun) → DeliveryWorld → DeliveryWorld
deliver_all config [] w = w
deliver_all config ((env, job) ∷ runs) w = deliver_all config runs (deliver env config job w).1

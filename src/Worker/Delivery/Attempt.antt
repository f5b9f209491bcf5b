-- ===== src/Worker/Delivery/Attempt.antt =====
-- The processor of the jobs and the handler of failed jobs in apps/worker/src/main.ts: what one run
-- leaves, by what the provider does.
use bf_techops.Prelude.{
  ◌+◌, ◌≤◌, ◌<◌, ◌≡◌, refl, true, false, ◌⊎◌, none, some, ◌∷◌, inl, inr, leb, length, Bool-cases,
  arith,
}
use bf_techops.Js.{Text}
use bf_techops.Persistence.Entities.{DeliveryStatus}
use bf_techops.Worker.Config.{WorkerConfig}
use bf_techops.Worker.Fault.{Fault, Run, done, threw}
use bf_techops.Worker.Delivery.Provider.{DeliveryEnv, send}
use bf_techops.Worker.Delivery.{
  JobRun, DeliveryWorld, already_delivered, attempt_fits, upsert, success_values, try_delivery,
  record_failure, deliver, on_failed, made, error_code_of,
}
use bf_techops.Worker.Delivery.Record.{
  Recorded, HasFailed, at_most, upsert-done, failure_fits, failed_run,
}

deliver-threw :
    (env : DeliveryEnv) (config : WorkerConfig) (job : JobRun) (w : DeliveryWorld) {fault : Fault}
    → already_delivered job.data_event.event_id w.delivery_attempts ≡ false
    → send env config job.data_event ≡ threw fault
    → deliver env config job w ≡ record_failure env job fault w
unfolding deliver try_delivery
deliver-threw env config job w fresh fails = rw fresh (rw fails refl)

unfit_success :
    (job : JobRun) (reference : Text)
    → 160 < length reference
    → attempt_fits (success_values job reference) ≡ false
unfolding attempt_fits success_values
unfit_success job reference long = ground arith

deliver-unfit :
    (env : DeliveryEnv) (config : WorkerConfig) (job : JobRun) (w : DeliveryWorld)
    {reference : Text}
    → already_delivered job.data_event.event_id w.delivery_attempts ≡ false
    → send env config job.data_event ≡ done reference
    → attempt_fits (success_values job reference) ≡ false
    → deliver env config job w
      ≡ record_failure env job env.refused
          (record w { notified = job.data_event.event_id ∷ w.notified })
unfolding deliver try_delivery upsert
deliver-unfit env config job w fresh sends unfit = rw fresh (rw sends (rw unfit refl))

-- What is left when a run has ended well.
pub record HasSucceeded (job : JobRun) (reference : Text) (before : DeliveryWorld)
    (p : Run (Unit {0}) × DeliveryWorld) : Type 0 where
  pub ended : p.0 ≡ done tt
  pub recorded :
      Recorded
        (record {
          event_id = job.data_event.event_id;
          attempt_number = job.attempts_made + 1;
          status = DeliveryStatus.succeeded;
          provider_reference = some reference;
          error_code = none;
          error_message = none;
        })
        p.1.delivery_attempts
  pub sends : p.1.notified ≡ job.data_event.event_id ∷ before.notified
  pub dead : p.1.dead_letters ≡ before.dead_letters

deliver-fit :
    (env : DeliveryEnv) (config : WorkerConfig) (job : JobRun) (w : DeliveryWorld)
    {reference : Text}
    → already_delivered job.data_event.event_id w.delivery_attempts ≡ false
    → send env config job.data_event ≡ done reference
    → attempt_fits (success_values job reference) ≡ true
    → HasSucceeded job reference w (deliver env config job w)
unfolding deliver try_delivery success_values
deliver-fit env config job w {reference} fresh sends fit =
    let (ended, recorded, notified, dead) =
      upsert-done env (success_values job reference)
        (record w { notified = job.data_event.event_id ∷ w.notified }) fit in
    rw fresh (
      rw sends
        (rw ended (record { ended = refl; recorded = recorded; sends = notified; dead = dead })))

fit_success :
    (job : JobRun) (reference : Text)
    → job.attempts_made + 1 ≤ 65_535
    → length reference ≤ 160
    → attempt_fits (success_values job reference) ≡ true
unfolding attempt_fits success_values
fit_success job reference number short = rw (at_most number) (rw (at_most short) refl)

-- What a run of a job for an event that was not delivered leaves, by what `send` does, and after the
-- handler of failed jobs if it failed. The error of a column that does not hold its value is
-- `env.refused`.
pub data Delivered (env : DeliveryEnv) (config : WorkerConfig) (job : JobRun) (w : DeliveryWorld)
    : Type 0 where
  sent :
      (reference : Text)
      → send env config job.data_event ≡ done reference
      → length reference ≤ 160
      → HasSucceeded job reference w (deliver env config job w)
      → Delivered env config job w
  unrecorded :
      (reference : Text)
      → send env config job.data_event ≡ done reference
      → 160 < length reference
      → HasFailed job env.refused
          (job.data_event.event_id ∷ w.notified)
          w.dead_letters
          (deliver env config job w).0
          (on_failed (made job) (deliver env config job w).1)
      → Delivered env config job w
  failed :
      (fault : Fault)
      → send env config job.data_event ≡ threw fault
      → HasFailed job fault w.notified w.dead_letters
          (deliver env config job w).0
          (on_failed (made job) (deliver env config job w).1)
      → Delivered env config job w

by_length :
    (env : DeliveryEnv) (config : WorkerConfig) (job : JobRun) (w : DeliveryWorld)
    (reference : Text)
    → already_delivered job.data_event.event_id w.delivery_attempts ≡ false
    → job.attempts_made + 1 ≤ 65_535
    → length (error_code_of env.refused) ≤ 80
    → send env config job.data_event ≡ done reference
    → (length reference ≤ 160) ⊎ (160 < length reference)
    → Delivered env config job w
by_length env config job w reference fresh number code sends (inl short) =
    Delivered.sent reference sends short
      (deliver-fit env config job w fresh sends (fit_success job reference number short))
by_length env config job w reference fresh number code sends (inr long) =
    Delivered.unrecorded reference sends long (
      rw (deliver-unfit env config job w fresh sends (unfit_success job reference long)) (
        failed_run env job env.refused
          (record w { notified = job.data_event.event_id ∷ w.notified })
          (failure_fits job env.refused number code)))

by_answer :
    (env : DeliveryEnv) (config : WorkerConfig) (job : JobRun) (w : DeliveryWorld)
    → already_delivered job.data_event.event_id w.delivery_attempts ≡ false
    → job.attempts_made + 1 ≤ 65_535
    → length (error_code_of env.refused) ≤ 80
    → ((fault : Fault)
        → send env config job.data_event ≡ threw fault
        → length (error_code_of fault) ≤ 80)
    → (answer : Run Text) → send env config job.data_event ≡ answer
    → Delivered env config job w
by_answer env config job w fresh number code codes (done reference) sends =
    by_length env config job w reference fresh number code sends
      (elim (Bool-cases (leb (length reference) 160)) [
        | inl c ↦ inl (ground arith)
        | inr c ↦ inr (ground arith)
      ])
by_answer env config job w fresh number code codes (threw fault) sends =
    Delivered.failed fault sends (
      rw (deliver-threw env config job w fresh sends)
        (failed_run env job fault w (failure_fits job fault number (codes fault sends))))

-- A run of a job for an event that was not delivered ends in one of three ways, where the number of
-- the attempt and the code of the error fit their columns. The provider takes the event and its
-- reference fits: the run ends well, the row of the attempt is SUCCEEDED with the reference. It takes
-- the event and the reference is longer than 160 units: the event was sent, but the run fails with the
-- error of the column. It throws: nothing is sent and the run fails with its error. A run that fails
-- throws its error on to the queue and records the error's code and the first 1000 units of its
-- message; at the job's last attempt the row is DEAD_LETTERED and the handler of failed jobs adds the
-- event to the dead-letter queue, before that the row is RETRYING and it does not.
pub deliver-Delivered :
    (env : DeliveryEnv) (config : WorkerConfig) (job : JobRun) (w : DeliveryWorld)
    → already_delivered job.data_event.event_id w.delivery_attempts ≡ false
    → job.attempts_made + 1 ≤ 65_535
    → length (error_code_of env.refused) ≤ 80
    → ((fault : Fault)
        → send env config job.data_event ≡ threw fault
        → length (error_code_of fault) ≤ 80)
    → Delivered env config job w
deliver-Delivered env config job w fresh number code codes =
    by_answer env config job w fresh number code codes (send env config job.data_event) refl

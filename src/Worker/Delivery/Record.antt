-- ===== src/Worker/Delivery/Record.antt =====
-- The rows of delivery_attempts that the processor of jobs in apps/worker/src/main.ts writes, and what
-- the processor and the handler of failed jobs leave of a failure.
use bf_techops.Prelude.{
  ℕ, ◌+◌, ◌≤◌, ◌<◌, ◌≡◌, refl, ◌∙◌, true, Bool, sym, subst, ◌⊎◌, none, some, List, take, [], ◌∷◌,
  inl, inr, leb, ==_refl, if◌then◌else◌, length, length-take-le, Bool-cases, arith,
}
use mathlib.Core.Option
use bf_techops.Prelude.Table.{any_row, find_one, update_where}
use bf_techops.MerchantScope.Lists.{or_false_left}
use bf_techops.Js.{codes}
use bf_techops.Wire.{Uuid, EventPayload}
use bf_techops.Persistence.Entities.{DeliveryAttemptEntity, DeliveryStatus}
use bf_techops.Worker.Fault.{Fault, Run, done, threw}
use bf_techops.Worker.Delivery.Provider.{DeliveryEnv}
use bf_techops.Worker.Delivery.{
  JobRun, DeliveryWorld, AttemptValues, attempt_fits, same_attempt, overwritten, upsert,
  failure_values, record_failure, on_failed, made, final_attempt, error_code_of, or_one,
}

pub at_most : {a b : ℕ} → a ≤ b → leb a b ≡ true
at_most {a} {b} h = ground arith

-- The values that a row has.
abbrev pub values_of : DeliveryAttemptEntity → AttemptValues
values_of a = record {
  event_id = a.event_id;
  attempt_number = a.attempt_number;
  status = a.status;
  provider_reference = a.provider_reference;
  error_code = a.error_code;
  error_message = a.error_message;
}

-- The row of the attempt has the values.
abbrev pub Recorded : AttemptValues → List DeliveryAttemptEntity → Type 0
Recorded v rows = Option.map values_of (find_one (same_attempt v) rows) ≡ some v

found_overwritten :
    (v : AttemptValues) (rows : List DeliveryAttemptEntity)
    → any_row (same_attempt v) rows ≡ true
    → Recorded v (update_where (same_attempt v) (overwritten v) rows)
unfolding any_row update_where find_one
found_overwritten v [] h = cc
found_overwritten v (a ∷ rows) h = elim (Bool-cases (same_attempt v a)) [
  | inl c ↦
      let event : a.event_id ≡ v.event_id = grind arith in
      let number : a.attempt_number ≡ v.attempt_number = grind arith in
      rw c (rw c (rw event (rw number refl)))
  | inr c ↦ rw c (rw c (found_overwritten v rows (or_false_left _ _ c h)))
]

pub upsert-done :
    (env : DeliveryEnv) (v : AttemptValues) (w : DeliveryWorld)
    → attempt_fits v ≡ true
    → ((upsert env v w).0 ≡ done tt)
      × (Recorded v (upsert env v w).1.delivery_attempts)
      × ((upsert env v w).1.notified ≡ w.notified)
      × ((upsert env v w).1.dead_letters ≡ w.dead_letters)
unfolding upsert find_one
upsert-done env v w fit = rw fit (elim (Bool-cases (any_row (same_attempt v) w.delivery_attempts)) [
  | inl d ↦ rw d (refl, found_overwritten v w.delivery_attempts d, refl, refl)
  | inr d ↦ rw d (refl, rw (==_refl v.event_id) (rw (==_refl v.attempt_number) refl), refl, refl)
])

pub failure_fits :
    (job : JobRun) (fault : Fault)
    → job.attempts_made + 1 ≤ 65_535
    → length (error_code_of fault) ≤ 80
    → attempt_fits (failure_values job fault) ≡ true
unfolding attempt_fits failure_values
failure_fits job fault number short =
    rw (at_most number) (rw (at_most short) (at_most (length-take-le 1000 fault.message)))

-- The `catch` block, when the row can be written.
record_failure-done :
    (env : DeliveryEnv) (job : JobRun) (fault : Fault) (w : DeliveryWorld)
    → attempt_fits (failure_values job fault) ≡ true
    → ((record_failure env job fault w).0 ≡ threw fault)
      × (Recorded (failure_values job fault) (record_failure env job fault w).1.delivery_attempts)
      × ((record_failure env job fault w).1.notified ≡ w.notified)
      × ((record_failure env job fault w).1.dead_letters ≡ w.dead_letters)
unfolding record_failure
record_failure-done env job fault w fit =
    let (ended, recorded, notified, dead) = upsert-done env (failure_values job fault) w fit in
    rw ended (refl, recorded, notified, dead)

-- What the handler of failed jobs does after a failed attempt.
on_failed-made :
    (job : JobRun) (w : DeliveryWorld)
    → ((on_failed (made job) w).delivery_attempts ≡ w.delivery_attempts)
      × ((on_failed (made job) w).notified ≡ w.notified)
      × ((on_failed (made job) w).dead_letters
          ≡ (if final_attempt job then job.data_event ∷ w.dead_letters else w.dead_letters))
unfolding on_failed final_attempt
on_failed-made job w = elim (Bool-cases (leb (or_one job.attempts) (job.attempts_made + 1))) [
  | inl c ↦ rw c (refl, refl, refl)
  | inr c ↦ rw c (refl, refl, refl)
]

-- The values of an attempt that failed: of a status, with the error's code and the first 1000 units
-- of its message.
abbrev pub failed_values : JobRun → Fault → DeliveryStatus → AttemptValues
failed_values job fault status = record {
  event_id = job.data_event.event_id;
  attempt_number = job.attempts_made + 1;
  status = status;
  provider_reference = none;
  error_code = some (elim fault.code [ none ↦ codes "DELIVERY_FAILED" | some c ↦ c ]);
  error_message = some (take 1000 fault.message);
}

-- `job.opts.attempts ?? 1`
abbrev pub attempts_of : JobRun → ℕ
attempts_of job = elim job.attempts [ none ↦ 1 | some n ↦ n ]

-- What is left when an attempt has failed with an error, and was counted: the error went on to the
-- queue; and if the attempt was the last of the job, its row is DEAD_LETTERED and the event is in the
-- dead-letter queue, and otherwise its row is RETRYING and the dead-letter queue is as it was.
pub record HasFailed (job : JobRun) (fault : Fault) (sent : List Uuid) (letters : List EventPayload)
    (r : Run (Unit {0})) (after : DeliveryWorld) : Type 0 where
  pub rethrown : r ≡ threw fault
  pub sends : after.notified ≡ sent
  pub ended :
      ((attempts_of job ≤ job.attempts_made + 1)
        × Recorded (failed_values job fault DeliveryStatus.dead_lettered) after.delivery_attempts
        × (after.dead_letters ≡ job.data_event ∷ letters))
      ⊎ ((job.attempts_made + 1 < attempts_of job)
          × Recorded (failed_values job fault DeliveryStatus.retrying) after.delivery_attempts
          × (after.dead_letters ≡ letters))

-- The two ends, from whether the attempt is the last one.
ended_lem :
    (job : JobRun) (fault : Fault) (rows : List DeliveryAttemptEntity)
    (after letters : List EventPayload)
    → Recorded (failure_values job fault) rows
    → after ≡ (if final_attempt job then job.data_event ∷ letters else letters)
    → ((attempts_of job ≤ job.attempts_made + 1)
        × Recorded (failed_values job fault DeliveryStatus.dead_lettered) rows
        × (after ≡ job.data_event ∷ letters))
      ⊎ ((job.attempts_made + 1 < attempts_of job)
          × Recorded (failed_values job fault DeliveryStatus.retrying) rows
          × (after ≡ letters))
unfolding failure_values final_attempt error_code_of
ended_lem job fault rows after letters recorded dead =
    elim (Bool-cases (leb (or_one job.attempts) (job.attempts_made + 1))) [
      | inl c ↦ inl (
        ground arith,
        subst
            (λ (b : Bool).
              Recorded
                (failed_values job fault
                  (if b then DeliveryStatus.dead_lettered else DeliveryStatus.retrying))
                rows)
            c recorded,
        dead ∙ rw c refl,
      )
      | inr c ↦ inr (
        ground arith,
        subst
            (λ (b : Bool).
              Recorded
                (failed_values job fault
                  (if b then DeliveryStatus.dead_lettered else DeliveryStatus.retrying))
                rows)
            c recorded,
        dead ∙ rw c refl,
      )
    ]

pub failed_run :
    (env : DeliveryEnv) (job : JobRun) (fault : Fault) (w : DeliveryWorld)
    → attempt_fits (failure_values job fault) ≡ true
    → HasFailed job fault w.notified w.dead_letters
        (record_failure env job fault w).0
        (on_failed (made job) (record_failure env job fault w).1)
failed_run env job fault w fit =
    let (ended, recorded, notified, dead) = record_failure-done env job fault w fit in
    let (rows, sends, letters) = on_failed-made job (record_failure env job fault w).1 in
    record {
      rethrown = ended;
      sends = sends ∙ notified;
      ended =
          ended_lem job fault _ _ w.dead_letters
            (subst (Recorded (failure_values job fault)) (sym rows) recorded)
            (letters ∙ rw dead refl);
    }

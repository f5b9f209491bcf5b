-- ===== src/Worker/Delivery/Once.antt =====
-- The processor of the jobs: an event that was delivered is not sent again.
use bf_techops.Prelude.{
  ℕ, ◌≡◌, refl, ap, subst, ◌∙◌, Bool, true, false, ◌&&◌, List, [], ◌∷◌, inl, inr, ◌==◌, ==_iff,
  ==_refl, Bool-cases, arith,
}
use bf_techops.Prelude.Table.{any_row, update_where, count_where}
use bf_techops.Prelude.Table.Laws.{updated}
use bf_techops.Prelude.Table.Unique.{or_true}
use bf_techops.MerchantScope.Lists.{or_false_left}
use bf_techops.Js.{Text}
use bf_techops.Wire.{Uuid}
use bf_techops.Persistence.Entities.{DeliveryAttemptEntity, DeliveryStatus}
use bf_techops.Worker.Config.{WorkerConfig}
use bf_techops.Worker.Fault.{Fault, Run, done, threw}
use bf_techops.Worker.Delivery.Provider.{DeliveryEnv, send}
use bf_techops.Worker.Delivery.{
  JobRun, DeliveryWorld, Outcome, AttemptValues, already_delivered, is_succeeded, attempt_fits,
  same_attempt, overwritten, upsert, count_delivery, success_values, failure_values, after_success,
  after_send, try_delivery, after_failure, record_failure, caught, deliver, deliver_all,
}

abbrev pub AttemptRun : Type 0
AttemptRun = Run (Unit {0}) × DeliveryWorld

-- The event has a delivery that went well.
abbrev pub IsDelivered : Uuid → DeliveryWorld → Type 0
IsDelivered id w = already_delivered id w.delivery_attempts ≡ true

-- How often `send` returned for the event.
unfoldable pub times_sent : Uuid → DeliveryWorld → ℕ
times_sent id w = count_where (λ i. i == id) w.notified

module _ (id : Uuid) where
  delivered_row : DeliveryAttemptEntity → Bool
  delivered_row a = a.event_id == id && is_succeeded a.status

  -- An UPDATE of the rows of another event.
  other_row :
      (v : AttemptValues) (a : DeliveryAttemptEntity)
      → (v.event_id == id) ≡ false
      → delivered_row (updated (same_attempt v) (overwritten v) a) ≡ delivered_row a
  unfolding delivered_row
  other_row v a other = elim (Bool-cases (same_attempt v a)) [
    | inl c ↦ let mine : a.event_id ≡ v.event_id = grind arith in rw c (rw mine (rw other refl))
    | inr c ↦ rw c refl
  ]

  other_rows :
      (v : AttemptValues) (rows : List DeliveryAttemptEntity)
      → (v.event_id == id) ≡ false
      → any_row delivered_row (update_where (same_attempt v) (overwritten v) rows)
        ≡ any_row delivered_row rows
  unfolding any_row update_where
  other_rows v [] other = refl
  other_rows v (a ∷ rows) other = rw (other_row v a other) (rw (other_rows v rows other) refl)

  -- An upsert for another event leaves what the event has.
  upsert-other :
      (env : DeliveryEnv) (v : AttemptValues) (w : DeliveryWorld)
      → (v.event_id == id) ≡ false
      → (already_delivered id (upsert env v w).1.delivery_attempts
          ≡ already_delivered id w.delivery_attempts)
        × ((upsert env v w).1.notified ≡ w.notified)
  unfolding upsert already_delivered any_row delivered_row
  upsert-other env v w other = elim (Bool-cases (attempt_fits v)) [
    | inr c ↦ rw c (refl, refl)
    | inl c ↦ rw c (elim (Bool-cases (any_row (same_attempt v) w.delivery_attempts)) [
      | inl d ↦ rw d (other_rows v w.delivery_attempts other, refl)
      | inr d ↦ rw d (rw other (refl, refl))
    ])
  ]

  -- Nothing of the event has changed.
  abbrev Same : DeliveryWorld → DeliveryWorld → Type 0
  Same w w' =
      (already_delivered id w'.delivery_attempts ≡ already_delivered id w.delivery_attempts)
      × (times_sent id w' ≡ times_sent id w)

  upsert-Same :
      (env : DeliveryEnv) (v : AttemptValues) (w : DeliveryWorld)
      → (v.event_id == id) ≡ false
      → Same w (upsert env v w).1
  unfolding times_sent
  upsert-Same env v w other =
      let (rows, sent) = upsert-other env v w other in
      (rows, ap (λ (l : List Uuid). count_where (λ i. i == id) l) sent)

  after_success-Same :
      (w : DeliveryWorld) (p : AttemptRun) → Same w p.1 → Same w (after_success p).1
  unfolding times_sent
  after_success-Same w (done u, w') same = same
  after_success-Same w (threw fault, w') same = same

  after_failure-Same :
      (job : JobRun) (fault : Fault) (w : DeliveryWorld) (p : AttemptRun)
      → Same w p.1
      → Same w (after_failure job fault p).1
  unfolding times_sent
  after_failure-Same job fault w (done u, w') same = same
  after_failure-Same job fault w (threw other, w') same = same

  module _ (env : DeliveryEnv) (job : JobRun)
      (other : (job.data_event.event_id == id) ≡ false) where
    notified_other :
        (w : DeliveryWorld) → Same w (record w { notified = job.data_event.event_id ∷ w.notified })
    unfolding times_sent count_where
    notified_other w = (refl, rw other (omega arith))

    after_send-Same : (r : Run Text) (w : DeliveryWorld) → Same w (after_send env job r w).1
    unfolding success_values
    after_send-Same (threw fault) w = (refl, refl)
    after_send-Same (done reference) w =
        let w' : DeliveryWorld = record w { notified = job.data_event.event_id ∷ w.notified } in
        let first = notified_other w in
        let later = upsert-Same env (success_values job reference) w' other in
        after_success-Same w (upsert env (success_values job reference) w')
          (later.0 ∙ first.0, later.1 ∙ first.1)

    caught-Same : (w : DeliveryWorld) (p : AttemptRun) → Same w p.1 → Same w (caught env job p).1
    unfolding record_failure failure_values
    caught-Same w (done u, w') same = same
    caught-Same w (threw fault, w') same =
        let later = upsert-Same env (failure_values job fault) w' other in
        after_failure-Same job fault w (upsert env (failure_values job fault) w')
          (later.0 ∙ same.0, later.1 ∙ same.1)

    deliver-Same : (config : WorkerConfig) (w : DeliveryWorld) → Same w (deliver env config job w).1
    unfolding deliver try_delivery times_sent
    deliver-Same config w =
        caught-Same w (try_delivery env config job w)
          (elim (Bool-cases (already_delivered job.data_event.event_id w.delivery_attempts)) [
            | inl c ↦ rw c (refl, refl)
            | inr c ↦ rw c (after_send-Same (send env config job.data_event) w)
          ])

  -- A run of an event that was delivered counts it, and does nothing else.
  deduplicated :
      (env : DeliveryEnv) (config : WorkerConfig) (job : JobRun) (w : DeliveryWorld)
      → job.data_event.event_id ≡ id
      → IsDelivered id w
      → deliver env config job w ≡ (done tt, count_delivery Outcome.deduplicated w)
  unfolding deliver try_delivery
  deduplicated env config job w mine there = rw mine (rw there refl)

  abbrev Kept : DeliveryWorld → DeliveryWorld → Type 0
  Kept w w' = IsDelivered id w' × (times_sent id w' ≡ times_sent id w)

  deliver-Kept :
      (env : DeliveryEnv) (config : WorkerConfig) (job : JobRun) (w : DeliveryWorld)
      → IsDelivered id w
      → Kept w (deliver env config job w).1
  unfolding times_sent
  deliver-Kept env config job w there = elim (Bool-cases (job.data_event.event_id == id)) [
    | inl mine ↦ rw (deduplicated env config job w ((==_iff _ id).0 mine) there) (there, refl)
    | inr other ↦ let same = deliver-Same env job other config w in (same.0 ∙ there, same.1)
  ]

  deliver_all-Kept :
      (config : WorkerConfig) (runs : List (DeliveryEnv × JobRun)) (w : DeliveryWorld)
      → IsDelivered id w
      → Kept w (deliver_all config runs w)
  unfolding deliver_all
  deliver_all-Kept config [] w there = (there, refl)
  deliver_all-Kept config ((env, job) ∷ runs) w there =
      let one = deliver-Kept env config job w there in
      let more = deliver_all-Kept config runs (deliver env config job w).1 one.0 in
      (more.0, more.1 ∙ one.1)

-- What a run that ended well leaves.
abbrev Good : Uuid → AttemptRun → Type 0
Good id (done u, w) = IsDelivered id w
Good id (threw fault, w) = Unit

overwritten_row :
    (v : AttemptValues) (a : DeliveryAttemptEntity)
    → v.status ≡ DeliveryStatus.succeeded
    → same_attempt v a ≡ true
    → (a.event_id == v.event_id && is_succeeded (overwritten v a).status) ≡ true
overwritten_row v a ok c = rw ok (ground arith)

overwritten_rows :
    (v : AttemptValues) (rows : List DeliveryAttemptEntity)
    → v.status ≡ DeliveryStatus.succeeded
    → any_row (same_attempt v) rows ≡ true
    → any_row
        (λ a. a.event_id == v.event_id && is_succeeded a.status)
        (update_where (same_attempt v) (overwritten v) rows)
      ≡ true
unfolding any_row update_where
overwritten_rows v [] ok h = h
overwritten_rows v (a ∷ rows) ok h = elim (Bool-cases (same_attempt v a)) [
  | inl c ↦ rw c (rw (overwritten_row v a ok c) refl)
  | inr c ↦ rw c (
      rw (overwritten_rows v rows ok (or_false_left _ _ c h))
        (or_true (a.event_id == v.event_id && is_succeeded a.status)))
]

upsert-Good :
    (env : DeliveryEnv) (v : AttemptValues) (w : DeliveryWorld)
    → v.status ≡ DeliveryStatus.succeeded
    → Good v.event_id (upsert env v w)
unfolding upsert already_delivered any_row
upsert-Good env v w ok = elim (Bool-cases (attempt_fits v)) [
  | inr c ↦ rw c tt
  | inl c ↦ rw c (elim (Bool-cases (any_row (same_attempt v) w.delivery_attempts)) [
    | inl d ↦ rw d (overwritten_rows v w.delivery_attempts ok d)
    | inr d ↦ rw d (rw ok (rw (==_refl v.event_id) refl))
  ])
]

after_success-Good : (id : Uuid) (p : AttemptRun) → Good id p → Good id (after_success p)
after_success-Good id (done u, w) good = good
after_success-Good id (threw fault, w) good = tt

after_failure-Good :
    (id : Uuid) (job : JobRun) (fault : Fault) (p : AttemptRun)
    → Good id (after_failure job fault p)
after_failure-Good id job fault (done u, w) = tt
after_failure-Good id job fault (threw other, w) = tt

caught-Good :
    (env : DeliveryEnv) (job : JobRun) (id : Uuid) (p : AttemptRun)
    → Good id p
    → Good id (caught env job p)
unfolding record_failure
caught-Good env job id (done u, w) good = good
caught-Good env job id (threw fault, w) good =
    after_failure-Good id job fault (upsert env (failure_values job fault) w)

after_send-Good :
    (env : DeliveryEnv) (job : JobRun) (r : Run Text) (w : DeliveryWorld)
    → Good job.data_event.event_id (after_send env job r w)
unfolding success_values
after_send-Good env job (threw fault) w = tt
after_send-Good env job (done reference) w =
    after_success-Good job.data_event.event_id _
      (upsert-Good env (success_values job reference) _ refl)

deliver-Good :
    (env : DeliveryEnv) (config : WorkerConfig) (job : JobRun) (w : DeliveryWorld)
    → Good job.data_event.event_id (deliver env config job w)
unfolding deliver try_delivery
deliver-Good env config job w =
    caught-Good env job job.data_event.event_id (try_delivery env config job w)
      (elim (Bool-cases (already_delivered job.data_event.event_id w.delivery_attempts)) [
        | inl c ↦ rw c c
        | inr c ↦ rw c (after_send-Good env job (send env config job.data_event) w)
      ])

-- After a run that ended well, whatever jobs run one after the other, and however they end, the
-- event stays delivered, and `send` returns for it no more.
pub deliver_all-IsDelivered :
    (env : DeliveryEnv) (config : WorkerConfig) (job : JobRun) (w w' : DeliveryWorld)
    (runs : List (DeliveryEnv × JobRun))
    → deliver env config job w ≡ (done tt, w')
    → IsDelivered job.data_event.event_id (deliver_all config runs w')
      × (times_sent job.data_event.event_id (deliver_all config runs w')
          ≡ times_sent job.data_event.event_id w')
deliver_all-IsDelivered env config job w w' runs ended =
    deliver_all-Kept job.data_event.event_id config runs w'
      (subst (Good job.data_event.event_id) ended (deliver-Good env config job w))

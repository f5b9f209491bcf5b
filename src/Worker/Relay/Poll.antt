-- ===== src/Worker/Relay/Poll.antt =====
-- `poll` of OutboxRelay: what becomes of the events that it claims.
use bf_techops.Prelude.{
  ◌+◌, ◌≡◌, refl, sym, ap, ◌∙◌, Bool, true, false, ◌&&◌, Option, none, some, List, [], ◌∷◌, map,
  inl, inr, ◌==◌, ==_iff, if◌then◌else◌, length, take, All, Bool-cases,
}
use bf_techops.Prelude.Table.{update_where}
use bf_techops.Prelude.Table.Laws.{updated}
use bf_techops.Prelude.Table.Unique
use mathlib.Core.List.{map-map, Memᴰ}
use bf_techops.MerchantScope.Defs.{has}
use bf_techops.Wire.{Uuid}
use bf_techops.Persistence.Entities.{OutboxEventEntity, OutboxStatus}
use bf_techops.Persistence.Database.{Database}
use bf_techops.Worker.Config.{WorkerConfig}
use bf_techops.Worker.Fault.{Fault, Run, done, threw}
use bf_techops.Worker.Relay.{
  Job, RelayEnv, RelayWorld, ids_of, with_claim, claim, is_processing, is_held, added, add_job,
  after_add, job_of, publish_one, publish_all, go_on, add_all_jobs, reconcile_published,
  update_metrics, with_metrics, finally, poll,
}
use bf_techops.Worker.Relay.Claim.{claim-done}

pub update_where-map {ℓ} :
    {A : Type ℓ} (p : A → Bool) (f : A → A) (rows : List A)
    → update_where p f rows ≡ map (updated p f) rows
unfolding update_where
update_where-map p f [] = refl
update_where-map {A} p f (r ∷ rows) =
    ap (λ (rest : List A). updated p f r ∷ rest) (update_where-map p f rows)

map_same {ℓ} : {A : Type ℓ} (f : A → A) → ((a : A) → f a ≡ a) → (rows : List A) → map f rows ≡ rows
map_same f same [] = refl
map_same {A} f same (r ∷ rows) =
    rw (same r) (ap (λ (rest : List A). r ∷ rest) (map_same f same rows))

map_ext {ℓ κ} :
    {A : Type ℓ} {B : Type κ} (f g : A → B)
    → ((a : A) → f a ≡ g a)
    → (rows : List A) → map f rows ≡ map g rows
map_ext f g same [] = refl
map_ext {B} f g same (r ∷ rows) =
    rw (same r) (ap (λ (rest : List B). g r ∷ rest) (map_ext f g same rows))

and_false : (a : Bool) → (a && false) ≡ false
and_false true = refl
and_false false = refl

module _ (env : RelayEnv) (config : WorkerConfig) where
  -- A row that was handed to the queue, or that the queue refused.
  abbrev pub handed : Option Fault → OutboxEventEntity → OutboxEventEntity
  handed none r = record r {
    status = OutboxStatus.published;
    published_at = some env.now;
    lock_until = none;
    last_error = none;
  }
  handed (some fault) r = record r {
    status = OutboxStatus.pending;
    available_at = env.now + config.base_delay_ms;
    lock_until = none;
    last_error = some (take 1000 fault.message);
  }

  abbrev pub settled : List Uuid → OutboxEventEntity → OutboxEventEntity
  settled ids r = if has ids r.id && is_processing r.status then handed (env.add r.id) r else r

  handed_rows :
      (event : OutboxEventEntity) (o : Option Fault) (w : RelayWorld)
      → (after_add env config event (added config event o w)).outbox_events
        ≡ map (updated (is_held event.id) (handed o)) w.outbox_events
  handed_rows event none w = update_where-map _ _ w.outbox_events
  handed_rows event (some fault) w = update_where-map _ _ w.outbox_events

  publish_one-rows :
      (event : OutboxEventEntity) (w : RelayWorld)
      → (publish_one env config event w).outbox_events
        ≡ map (updated (is_held event.id) (handed (env.add event.id))) w.outbox_events
  unfolding publish_one add_job
  publish_one-rows event w = handed_rows event (env.add event.id) w

  -- A row that was handed over is no longer in process.
  handed_out :
      (o : Option Fault) (ids : List Uuid) (r : OutboxEventEntity)
      → settled ids (handed o r) ≡ handed o r
  handed_out none ids r = rw (and_false (has ids r.id)) refl
  handed_out (some fault) ids r = rw (and_false (has ids r.id)) refl

  settled_twice :
      (id : Uuid) (ids : List Uuid) (r : OutboxEventEntity)
      → settled ids (updated (is_held id) (handed (env.add id)) r) ≡ settled (id ∷ ids) r
  settled_twice id ids r = elim (Bool-cases (r.id == id)) [
    | inl this ↦ elim (Bool-cases (is_processing r.status)) [
      | inl held ↦ rw this (
          rw held (
            handed_out (env.add id) ids r
            ∙ ap (λ (k : Uuid). handed (env.add k) r) (sym ((==_iff r.id id).0 this))))
      | inr free ↦ rw this (rw free (rw free (rw (and_false (has ids r.id)) refl)))
    ]
    | inr other ↦ rw other refl
  ]

  publish_all-rows :
      (events : List OutboxEventEntity) (w : RelayWorld)
      → (publish_all env config events w).outbox_events
        ≡ map (settled (ids_of events)) w.outbox_events
  unfolding publish_all
  publish_all-rows [] w = sym (map_same (settled []) (λ r. refl) w.outbox_events)
  publish_all-rows (event ∷ events) w =
      publish_all-rows events (publish_one env config event w)
      ∙ ap (map (settled (ids_of events))) (publish_one-rows event w)
      ∙ map-map _ _ w.outbox_events
      ∙ map_ext _ _ (settled_twice event.id (ids_of events)) w.outbox_events

  added_db :
      (event : OutboxEventEntity) (next : RelayWorld → Run (Unit {0}) × RelayWorld)
      → ((v : RelayWorld) → (next v).1.db ≡ v.db)
      → (o : Option Fault) (w : RelayWorld) → (go_on next (added config event o w)).1.db ≡ w.db
  added_db event next same none w = same (record w { jobs = job_of config event ∷ w.jobs })
  added_db event next same (some fault) w = refl

  add_all_jobs-db :
      (events : List OutboxEventEntity) (w : RelayWorld)
      → (add_all_jobs env config events w).1.db ≡ w.db
  unfolding add_all_jobs add_job
  add_all_jobs-db [] w = refl
  add_all_jobs-db (event ∷ events) w =
      added_db event (add_all_jobs env config events) (add_all_jobs-db events) (env.add event.id) w

  -- A job that was handed to the queue stays in the log.
  added_jobs :
      (j : Job) (event : OutboxEventEntity) (next : RelayWorld → Run (Unit {0}) × RelayWorld)
      → ((v : RelayWorld) → Memᴰ j v.jobs → Memᴰ j (next v).1.jobs)
      → (o : Option Fault) (w : RelayWorld) → Memᴰ j w.jobs
      → Memᴰ j (go_on next (added config event o w)).1.jobs
  added_jobs j event next keeps none w m = keeps _ (Memᴰ.tail m)
  added_jobs j event next keeps (some fault) w m = m

  add_all_jobs-keeps :
      (j : Job) (events : List OutboxEventEntity) (w : RelayWorld)
      → Memᴰ j w.jobs
      → Memᴰ j (add_all_jobs env config events w).1.jobs
  unfolding add_all_jobs add_job
  add_all_jobs-keeps j [] w m = m
  add_all_jobs-keeps j (event ∷ events) w m =
      added_jobs j event (add_all_jobs env config events) (add_all_jobs-keeps j events)
        (env.add event.id) w m

  one_keeps :
      (j : Job) (event : OutboxEventEntity) (o : Option Fault) (w : RelayWorld)
      → Memᴰ j w.jobs
      → Memᴰ j (after_add env config event (added config event o w)).jobs
  one_keeps j event none w m = Memᴰ.tail m
  one_keeps j event (some fault) w m = m

  publish_all-keeps :
      (j : Job) (events : List OutboxEventEntity) (w : RelayWorld)
      → Memᴰ j w.jobs
      → Memᴰ j (publish_all env config events w).jobs
  unfolding publish_all publish_one add_job
  publish_all-keeps j [] w m = m
  publish_all-keeps j (event ∷ events) w m =
      publish_all-keeps j events _ (one_keeps j event (env.add event.id) w m)

  -- The job of an event: the event itself under its identifier, with the configured attempts and
  -- delay.
  abbrev pub delivery_job : OutboxEventEntity → Job
  delivery_job e = record {
    job_id = e.id;
    event = e.payload;
    attempts = config.max_attempts;
    backoff_delay = config.base_delay_ms;
  }

  one_added :
      (event : OutboxEventEntity) (o : Option Fault) (w : RelayWorld)
      → o ≡ none
      → Memᴰ (delivery_job event) (after_add env config event (added config event o w)).jobs
  unfolding job_of
  one_added event none w e = Memᴰ.head refl
  one_added event (some fault) w e = cc

  abbrev pub InQueue : List Job → OutboxEventEntity → Type 0
  InQueue jobs e = env.add e.id ≡ none → Memᴰ (delivery_job e) jobs

  publish_all-InQueue :
      (events : List OutboxEventEntity) (w : RelayWorld)
      → All (InQueue (publish_all env config events w).jobs) events
  unfolding publish_all publish_one add_job
  publish_all-InQueue [] w = tt
  publish_all-InQueue (event ∷ events) w = (
    (λ accepted.
        publish_all-keeps (delivery_job event) events _
          (one_added event (env.add event.id) w accepted)),
    publish_all-InQueue events (publish_one env config event w),
  )

  with_metrics-same :
      (p : Run (Unit {0}) × RelayWorld)
      → ((finally (with_metrics env p)).1.db ≡ p.1.db)
        × ((finally (with_metrics env p)).1.jobs ≡ p.1.jobs)
  unfolding update_metrics
  with_metrics-same (done u, w) = (refl, refl)
  with_metrics-same (threw fault, w) = (refl, refl)

  claimed_world : RelayWorld → List OutboxEventEntity → Database → RelayWorld
  claimed_world w events db = record w {
    polling = true;
    db = db;
    outbox_claimed = w.outbox_claimed + length events;
  }

  poll_after_claim :
      (w : RelayWorld) {events : List OutboxEventEntity} {db : Database}
      → w.polling ≡ false
      → claim env 25 w.db ≡ (done events, db)
      → poll env config w
        ≡ finally (
            with_metrics env (
              reconcile_published env config 100
                (publish_all env config events (claimed_world w events db))))
  unfolding poll claimed_world
  poll_after_claim w idle claimed = rw idle (rw claimed refl)

  -- The row of an event as a claim takes it.
  abbrev pub leased_row : OutboxEventEntity → OutboxEventEntity
  leased_row r = record r {
    status = OutboxStatus.processing;
    lock_until = some (env.now + 30_000);
    attempts = r.attempts + 1;
  }

  -- The row of an event as a poll that claimed `events` leaves it.
  abbrev pub after_poll : List OutboxEventEntity → OutboxEventEntity → OutboxEventEntity
  after_poll events r = if has (ids_of events) r.id then handed (env.add r.id) (leased_row r) else r

  settled-claimed :
      (ids : List Uuid) (r : OutboxEventEntity)
      → settled ids (updated (λ s. has ids s.id) (with_claim env) r)
        ≡ (if has ids r.id then handed (env.add r.id) (with_claim env r) else r)
  settled-claimed ids r = elim (Bool-cases (has ids r.id)) [
    | inl mine ↦ rw mine (rw mine refl)
    | inr free ↦ rw free (rw free refl)
  ]

  pub poll-rows :
      (w : RelayWorld) {events : List OutboxEventEntity} {db : Database}
      → w.polling ≡ false
      → claim env 25 w.db ≡ (done events, db)
      → (poll env config w).1.outbox_events ≡ map (after_poll events) w.outbox_events
  unfolding reconcile_published claimed_world
  poll-rows w {events} {db} idle claimed =
      ap (λ (p : Run (Unit {0}) × RelayWorld). p.1.outbox_events) (poll_after_claim w idle claimed)
      ∙ ap (λ (d : Database). d.outbox_events) (with_metrics-same _).0
      ∙ ap (λ (d : Database). d.outbox_events) (add_all_jobs-db _ _)
      ∙ publish_all-rows events (claimed_world w events db)
      ∙ ap (λ (d : Database). map (settled (ids_of events)) d.outbox_events)
          (sym (claim-done env 25 w.db claimed).1)
      ∙ ap (map (settled (ids_of events))) (update_where-map _ _ w.outbox_events)
      ∙ map-map _ _ w.outbox_events
      ∙ map_ext _ _ (settled-claimed (ids_of events)) w.outbox_events

  still_queued :
      (events more : List OutboxEventEntity) (w : RelayWorld)
      → All (InQueue w.jobs) events
      → All (InQueue (add_all_jobs env config more w).1.jobs) events
  still_queued events more w queued =
      Unique.All-map (InQueue (add_all_jobs env config more w).1.jobs)
        (λ e there accepted. add_all_jobs-keeps (delivery_job e) more w (there accepted)) events
        queued

  -- A poll whose claim went through leaves no event of its claim in process: an event that the queue
  -- took is published now, and its job is in the queue; one that the queue refused is pending again,
  -- the configured base delay from now, with the error's first 1000 units; an event of the claim has
  -- one attempt more; every other row is as it was; and the relay
  -- can poll again, also if the queue refused a job that was added again.
  pub poll_hands_over :
      (w : RelayWorld) (events : List OutboxEventEntity) (db : Database)
      → w.polling ≡ false
      → claim env 25 w.db ≡ (done events, db)
      → ((poll env config w).1.outbox_events ≡ map (after_poll events) w.outbox_events)
        × All (InQueue (poll env config w).1.jobs) events
        × ((poll env config w).1.polling ≡ false)
  unfolding reconcile_published
  poll_hands_over w events db idle claimed = (
    poll-rows w idle claimed,
    rw (poll_after_claim w idle claimed) (
        rw (with_metrics-same _).1
          (still_queued events _ _ (publish_all-InQueue events (claimed_world w events db)))),
    rw (poll_after_claim w idle claimed) refl,
  )

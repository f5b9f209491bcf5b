-- ===== src/Worker/Relay/Lease.antt =====
-- The lease of a claim of OutboxRelay (apps/worker/src/outbox-relay.ts) while other relays poll.
use bf_techops.Prelude.{
  ℕ, ◌+◌, ◌≤◌, ◌≡◌, refl, sym, ap, subst, ◌∙◌, true, false, Option, none, some, List, [], ◌∷◌, map,
  inl, inr, ◌==◌, ==_iff, All, Bool-cases,
}
use bf_techops.Prelude.Table.Unique.{absurd_bool}
use bf_techops.MerchantScope.Defs.{has}
use bf_techops.Wire.{Uuid}
use bf_techops.Persistence.Entities.{OutboxEventEntity}
use bf_techops.Persistence.Database.{Database}
use bf_techops.Worker.Config.{WorkerConfig}
use bf_techops.Worker.Fault.{Fault, Run, done, threw}
use bf_techops.Worker.Relay.{RelayEnv, RelayWorld, ids_of, claim, poll}
use bf_techops.Worker.Relay.Claim.{IsLeased, AllLeased, claim-AllLeased, claim_other, claim-threw}
use bf_techops.Worker.Relay.Poll.{handed, leased_row, after_poll, poll-rows}

-- A relay that polls: what it takes from outside, its configuration, and what it keeps.
abbrev pub Poller : Type 0
Poller = RelayEnv × WorkerConfig × RelayWorld

-- Polls of some relays, one after the other, on the same tables.
unfoldable pub relays_poll : List Poller → Database → Database
relays_poll [] db = db
relays_poll ((env, config, w) ∷ more) db =
    relays_poll more (poll env config (record w { db = db })).1.db

-- Each polls within the lease of a claim at this environment's time.
abbrev pub Within : RelayEnv → List Poller → Type 0
Within env pollers = All (λ p. p.0.now ≤ env.now + 30_000) pollers

-- An identifier of the first events is none of the others.
other_id :
    (ids : List Uuid) (id : Uuid) (again : List OutboxEventEntity)
    → All (λ e. has ids e.id ≡ false) again
    → has ids id ≡ true
    → has (ids_of again) id ≡ false
other_id ids id [] a h = refl
other_id ids id (e ∷ again) (free, a) h = elim (Bool-cases (id == e.id)) [
  | inl c ↦ absurd_bool (sym h ∙ ap (has ids) ((==_iff id e.id).0 c) ∙ free)
  | inr c ↦ rw c (other_id ids id again a h)
]

handed_id :
    (env : RelayEnv) (config : WorkerConfig) (o : Option Fault) (r : OutboxEventEntity)
    → (handed env config o r).id ≡ r.id
handed_id env config none r = refl
handed_id env config (some fault) r = refl

module _ (env : RelayEnv) (events : List OutboxEventEntity) where
  IsHeld : OutboxEventEntity → Type 0
  IsHeld r = has (ids_of events) r.id ≡ true → IsLeased env r

  row_kept :
      (later : RelayEnv) (config : WorkerConfig) (again : List OutboxEventEntity)
      (r : OutboxEventEntity)
      → All (λ e. has (ids_of events) e.id ≡ false) again
      → IsHeld r
      → IsHeld (after_poll later config again r)
  unfolding IsHeld
  row_kept later config again r free held = elim (Bool-cases (has (ids_of again) r.id)) [
    | inl taken ↦ rw taken λ h. absurd_bool (
        sym taken
        ∙ other_id (ids_of events) r.id again free (
            ap (has (ids_of events))
              (sym (handed_id later config (later.add r.id) (leased_row later config r)))
            ∙ h))
    | inr other ↦ rw other held
  ]

  rows_kept :
      (later : RelayEnv) (config : WorkerConfig) (again rows : List OutboxEventEntity)
      → All (λ e. has (ids_of events) e.id ≡ false) again
      → All IsHeld rows
      → All IsHeld (map (after_poll later config again) rows)
  rows_kept later config again [] free held = tt
  rows_kept later config again (r ∷ rows) free (this, held) =
      (row_kept later config again r free this, rows_kept later config again rows free held)

  poll_threw :
      (later : RelayEnv) (config : WorkerConfig) (w : RelayWorld) {fault : Fault} {db : Database}
      → w.polling ≡ false
      → claim later 25 w.db ≡ (threw fault, db)
      → (poll later config w).1.db ≡ w.db
  unfolding poll
  poll_threw later config w idle claimed = rw idle (rw claimed (claim-threw later 25 w.db claimed))

  poll_kept :
      (later : RelayEnv) (config : WorkerConfig) (w : RelayWorld)
      → later.now ≤ env.now + 30_000
      → AllLeased env events w.db
      → w.polling ≡ false
      → (p : Run (List OutboxEventEntity) × Database) → claim later 25 w.db ≡ p
      → AllLeased env events (poll later config w).1.db
  unfolding AllLeased IsHeld
  poll_kept later config w within held idle (done again, db) claimed =
      subst (All IsHeld) (sym (poll-rows later config w idle claimed)) (
        rows_kept later config again w.outbox_events
          (claim_other env later 25 w.db db events again held within claimed) held)
  poll_kept later config w within held idle (threw fault, db) claimed =
      subst (AllLeased env events) (sym (poll_threw later config w idle claimed)) held

  poll-AllLeased :
      (later : RelayEnv) (config : WorkerConfig) (w : RelayWorld)
      → later.now ≤ env.now + 30_000
      → AllLeased env events w.db
      → AllLeased env events (poll later config w).1.db
  unfolding poll
  poll-AllLeased later config w within held = elim (Bool-cases w.polling) [
    | inl busy ↦ rw busy held
    | inr idle ↦ poll_kept later config w within held idle (claim later 25 w.db) refl
  ]

  pub relays_poll-AllLeased :
      (pollers : List Poller) (db : Database)
      → Within env pollers
      → AllLeased env events db
      → AllLeased env events (relays_poll pollers db)
  unfolding relays_poll
  relays_poll-AllLeased [] db within held = held
  relays_poll-AllLeased ((later, config, w) ∷ more) db (now, within) held =
      relays_poll-AllLeased more _ within
        (poll-AllLeased later config (record w { db = db }) now held)

-- Until its relay hands it over or releases it, an event stays with the relay that claimed it for the
-- 30 seconds of the lease: whatever relays poll meanwhile, one after the other and each within the
-- lease, whatever locks they find and whatever the queue answers them, its row stays in process with
-- this lease, and a claim of any relay within the lease takes none of the events.
pub claim-exclusive :
    (env later : RelayEnv) (limit limit' : ℕ) (db db' db'' : Database)
    (events again : List OutboxEventEntity) (pollers : List Poller)
    → claim env limit db ≡ (done events, db')
    → Within env pollers
    → later.now ≤ env.now + 30_000
    → claim later limit' (relays_poll pollers db') ≡ (done again, db'')
    → AllLeased env events (relays_poll pollers db')
      × All (λ e. has (ids_of events) e.id ≡ false) again
claim-exclusive env later limit limit' db db' db'' events again pollers first polls now second =
    let held =
      relays_poll-AllLeased env events pollers db' polls
        (claim-AllLeased env limit db db' events first) in
    (held, claim_other env later limit' (relays_poll pollers db') db'' events again held now second)

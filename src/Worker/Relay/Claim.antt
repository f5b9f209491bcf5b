-- ===== src/Worker/Relay/Claim.antt =====
-- `claim` of OutboxRelay: which events it takes, and for how long they are its own.
use bf_techops.Prelude.{
  ℕ, ◌+◌, ◌≤◌, ◌≡◌, ◌⊎◌, refl, sym, ap, subst, ◌∙◌, Bool, true, false, not, ◌&&◌, some, List, [],
  ◌∷◌, inl, inr, ltb, leb, if◌then◌else◌, length, length-take-le, All, any, Bool-cases, arith,
}
use bf_techops.Prelude.Table.{update_where}
use bf_techops.Prelude.Table.Unique.{All-map, absurd_bool}
use bf_techops.Prelude.Table.Sorted.{
  take-All, All-Memᴰ, select-Memᴰ, order_asc-All, order_asc-Memᴰ, order_asc-Ascending,
  take-Ascending,
}
use mathlib.Core.List.{Memᴰ}
use bf_techops.MerchantScope.Lists.{select-All}
use bf_techops.MerchantScope.Defs.{has}
use bf_techops.Persistence.Entities.{OutboxEventEntity, OutboxStatus}
use bf_techops.Persistence.Database.{Database}
use bf_techops.Persistence.Insert.{max_smallint}
use bf_techops.Worker.Fault.{Fault, Run, done, threw}
use bf_techops.Worker.Relay.{RelayEnv, claimable, selected, ids_of, with_claim, set_claimed, claim}

-- The events that a claim returned.
pub record Chosen (env : RelayEnv) (limit : ℕ) (db : Database) (events : List OutboxEventEntity)
    : Type 0 where
  pub few : length events ≤ limit
  pub eligible : All (λ e. Memᴰ e db.outbox_events × (claimable env e ≡ true)) events
  pub oldest :
      (r : OutboxEventEntity)
      → Memᴰ r db.outbox_events
      → claimable env r ≡ true
      → Memᴰ r events ⊎ ((length events ≡ limit) × All (λ e. e.created_at ≤ r.created_at) events)

pub selected-Chosen :
    (env : RelayEnv) (limit : ℕ) (db : Database) → Chosen env limit db (selected env limit db)
unfolding selected
selected-Chosen env limit db = record {
  few = length-take-le limit _;
  eligible =
      take-All (λ e. Memᴰ e db.outbox_events × (claimable env e ≡ true)) limit _
        (order_asc-All (λ r. r.created_at) _ _
          (select-All (λ e. Memᴰ e db.outbox_events × (claimable env e ≡ true)) (claimable env)
            db.outbox_events λ r there h. (there, h)));
  oldest = λ r there h.
      take-Ascending (λ r. r.created_at) limit _ (order_asc-Ascending (λ r. r.created_at) _)
        (order_asc-Memᴰ (λ r. r.created_at) _
          (select-Memᴰ (claimable env) db.outbox_events there h));
}

abbrev events_or : List OutboxEventEntity → Run (List OutboxEventEntity) → List OutboxEventEntity
events_or other (done events) = events
events_or other (threw fault) = other

claimed_if :
    (c : Bool) (fault : Fault) (found : List OutboxEventEntity) (db db₁ : Database)
    {events : List OutboxEventEntity} {db' : Database}
    → ◌≡◌ {A = Run (List OutboxEventEntity) × Database}
        (if c then (threw fault, db) else (done found, db₁))
        (done events, db')
    → (found ≡ events) × (db₁ ≡ db')
claimed_if true fault found db db₁ h = cc
claimed_if false fault found db db₁ h = (
  ap (λ (r : Run (List OutboxEventEntity) × Database). events_or found r.0) h,
  ap (λ (r : Run (List OutboxEventEntity) × Database). r.1) h,
)

-- A claim that went through.
pub claim-done :
    (env : RelayEnv) (limit : ℕ) (db : Database) {events : List OutboxEventEntity} {db' : Database}
    → claim env limit db ≡ (done events, db')
    → (selected env limit db ≡ events) × (set_claimed env events db ≡ db')
unfolding claim
claim-done env limit db h =
    let c =
      claimed_if (any (λ r. leb max_smallint r.attempts) (selected env limit db)) env.refused
        (selected env limit db) db (set_claimed env (selected env limit db) db) h in
    (c.0, ap (λ (e : List OutboxEventEntity). set_claimed env e db) (sym c.0) ∙ c.1)

threw_if :
    (c : Bool) (fault : Fault) (found : List OutboxEventEntity) (db db₁ : Database) {fault' : Fault}
    {db' : Database}
    → ◌≡◌ {A = Run (List OutboxEventEntity) × Database}
        (if c then (threw fault, db) else (done found, db₁))
        (threw fault', db')
    → db' ≡ db
threw_if true fault found db db₁ h = cc
threw_if false fault found db db₁ h = cc

-- A claim that failed has written nothing.
pub claim-threw :
    (env : RelayEnv) (limit : ℕ) (db : Database) {fault : Fault} {db' : Database}
    → claim env limit db ≡ (threw fault, db')
    → db' ≡ db
unfolding claim
claim-threw env limit db h =
    threw_if (any (λ r. leb max_smallint r.attempts) (selected env limit db)) env.refused
      (selected env limit db) db (set_claimed env (selected env limit db) db) h

-- A row that a claim took is in process, for 30 seconds from the claim.
abbrev pub IsLeased : RelayEnv → OutboxEventEntity → Type 0
IsLeased env r = (r.status ≡ OutboxStatus.processing) × (r.lock_until ≡ some (env.now + 30_000))

IsLeased-rows :
    (env : RelayEnv) (events : List OutboxEventEntity) (rows : List OutboxEventEntity)
    → All
        (λ r. has (ids_of events) r.id ≡ true → IsLeased env r)
        (update_where (λ r. has (ids_of events) r.id) (with_claim env) rows)
unfolding update_where
IsLeased-rows env events [] = tt
IsLeased-rows env events (r ∷ rows) = (
  (elim (Bool-cases (has (ids_of events) r.id)) [
    | inl c ↦ rw c (λ _. (refl, refl))
    | inr c ↦ rw c (λ h. absurd_bool (sym h ∙ c))
  ]),
  IsLeased-rows env events rows,
)

-- A claim takes at most as many events as it may, each of them claimable (not locked by another
-- relay, its time has come, and pending or with a lease that has ended); a claimable event that it
-- leaves is younger than all that it takes, and then it takes as many as it may; and the rows that
-- it takes are in process with a lease of 30 seconds.
pub claim-Chosen :
    (env : RelayEnv) (limit : ℕ) (db db' : Database) (events : List OutboxEventEntity)
    → claim env limit db ≡ (done events, db')
    → Chosen env limit db events
      × All (λ r. has (ids_of events) r.id ≡ true → IsLeased env r) db'.outbox_events
claim-Chosen env limit db db' events h =
    let c = claim-done env limit db h in
    (
      subst (Chosen env limit db) c.0 (selected-Chosen env limit db),
      subst
          (λ (d : Database).
            All (λ r. has (ids_of events) r.id ≡ true → IsLeased env r) d.outbox_events)
          c.1 (IsLeased-rows env events db.outbox_events),
    )

not_before : (a b : ℕ) → a ≤ b → ltb b a ≡ false
not_before a b h = ground arith

pub and_false : (a b : Bool) → (a && b && false) ≡ false
and_false false b = refl
and_false true false = refl
and_false true true = refl

leased-claimable :
    (env later : RelayEnv) (r : OutboxEventEntity)
    → later.now ≤ env.now + 30_000
    → IsLeased env r
    → claimable later r ≡ false
unfolding claimable
leased-claimable env later r within (held, until) = rw held (
    rw until (
      rw (not_before later.now (env.now + 30_000) within)
        (and_false (not (later.locked r.id)) (leb r.available_at later.now))))

-- The rows of these events are as the claim left them, in process for 30 seconds from it.
unfoldable pub AllLeased : RelayEnv → List OutboxEventEntity → Database → Type 0
AllLeased env events db =
    All (λ r. has (ids_of events) r.id ≡ true → IsLeased env r) db.outbox_events

-- A claim within the lease takes none of the events.
pub claim_other :
    (env later : RelayEnv) (limit : ℕ) (db db' : Database) (events again : List OutboxEventEntity)
    → AllLeased env events db
    → later.now ≤ env.now + 30_000
    → claim later limit db ≡ (done again, db')
    → All (λ e. has (ids_of events) e.id ≡ false) again
unfolding AllLeased
claim_other env later limit db db' events again leased within second =
    let chosen = (claim-Chosen later limit db db' again second).0 in
    All-map (λ e. has (ids_of events) e.id ≡ false)
      (λ e (there, h). elim (Bool-cases (has (ids_of events) e.id)) [
        | inl held ↦ absurd_bool (
            sym h
            ∙ leased-claimable env later e within (
                All-Memᴰ (λ r. has (ids_of events) r.id ≡ true → IsLeased env r) db.outbox_events
                  leased there held))
        | inr free ↦ free
      ])
      again chosen.eligible

-- After the claim they are.
pub claim-AllLeased :
    (env : RelayEnv) (limit : ℕ) (db db' : Database) (events : List OutboxEventEntity)
    → claim env limit db ≡ (done events, db')
    → AllLeased env events db'
unfolding AllLeased
claim-AllLeased env limit db db' events h = (claim-Chosen env limit db db' events h).1

-- ===== src/Worker/Relay/Drain.antt =====
-- Repeated polls of OutboxRelay: the outbox gets empty.
use bf_techops.Prelude.{ℕ, zero, suc, ◌≡◌, Bool, true, false, none, List, leb, if◌then◌else◌}
use bf_techops.Prelude.Table.Unique
use bf_techops.Prelude.Table.Unique.{Distinct, or_true}
use bf_techops.MerchantScope.Defs.{has}
use bf_techops.Wire.{Uuid}
use bf_techops.Persistence.Entities.{OutboxEventEntity}
use bf_techops.Persistence.Insert.{max_smallint}
use bf_techops.Worker.Config.{WorkerConfig}
use bf_techops.Worker.Relay.{
  RelayEnv, RelayWorld, ids_of, with_claim, claimable, selected, as_published, poll,
}
use bf_techops.Worker.Relay.Poll.{handed}

-- Some polls, one after the other.
unfoldable pub polls : RelayEnv → WorkerConfig → ℕ → RelayWorld → RelayWorld
polls env config zero w = w
polls env config (suc k) w = polls env config k (poll env config w).1

-- The number of attempts of an event that is to be claimed can grow.
abbrev pub HasRoom : RelayEnv → OutboxEventEntity → Type 0
HasRoom env r = claimable env r ≡ true → leb max_smallint r.attempts ≡ false

-- The row of an event that was claimable, published; any other row as it is.
abbrev pub drained : RelayEnv → OutboxEventEntity → OutboxEventEntity
drained env r = if claimable env r then as_published env (with_claim env r) else r

module _ (env : RelayEnv) (config : WorkerConfig) (accepts : (id : Uuid) → env.add id ≡ none) where
  -- What a poll makes of the rows of its claim.
  sent : OutboxEventEntity → OutboxEventEntity
  sent r = handed env config (env.add r.id) (with_claim env r)

  module _ (w : RelayWorld) (distinct : Distinct (λ r. r.id) w.outbox_events) where
    events : List OutboxEventEntity
    events = selected env 25 w.db

    mine : OutboxEventEntity → Bool
    mine r = has (ids_of events) r.id

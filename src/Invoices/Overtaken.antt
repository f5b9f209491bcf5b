-- ===== src/Invoices/Overtaken.antt =====
-- `transition` of apps/api/src/invoices/invoice.service.ts when another transaction was faster.
use bf_techops.Prelude.{ℕ, ◌&&◌, ◌==◌, ◌≡◌, ◌⊎◌, false, Option, List, All}
use bf_techops.Failure.{Failure, err, conflict}
use bf_techops.Js.{Text}
use bf_techops.Wire.{Uuid, ActorTokenPayload, UpdateInvoiceStatusDto}
use bf_techops.Persistence.Entities.{InvoiceEntity}
use bf_techops.Persistence.Database.{Database, Env, World}
use bf_techops.Invoices.Defs.{transition}

-- No row of the invoice has this version.
abbrev Passed : Uuid → ℕ → List InvoiceEntity → Type 0
Passed id version rows = All (λ r. (r.id == id && r.version == version) ≡ false) rows

module _ (env : Env) (actor : ActorTokenPayload) (invoice_id : Uuid) (request_id : Option Text)
    (dto : UpdateInvoiceStatusDto) where
  -- A status change was refused, by its checks with the tables as they were, or as a conflict with the
  -- tables as the other transactions have left them.
  pub Refused : (others : Database → Database) (w : World) → Type 0
  Refused others w =
      (e : Failure) × (w' : World) × (transition env actor invoice_id request_id dto others w
        ≡ (err e, w'))
      × ((w'.db ≡ w.db)
          ⊎ ((e ≡ conflict "Concurrent invoice update detected") × (w'.db ≡ others w.db)))

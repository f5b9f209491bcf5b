-- ===== src/Invoices/Get.antt =====
-- `get` of apps/api/src/invoices/invoice.service.ts: to whom it shows an invoice.
use bf_techops.Prelude.{ℕ, ◌≡◌, ◌<◌, true, some}
use bf_techops.Wire.{Uuid, ActorTokenPayload}
use bf_techops.Persistence.Entities.{StoreEntity, InvoiceEntity}
use bf_techops.Persistence.Database.{Database}
use bf_techops.MerchantScope.Under.{Under}
use bf_techops.Invoices.Defs.{find_invoice}

-- The row of an invoice that the actor may see: its store is active and of a merchant that is the
-- actor's or less than 16 levels below it.
pub record Visible (db : Database) (actor : ActorTokenPayload) (invoice_id : Uuid)
    (invoice : InvoiceEntity) : Type 0 where
  pub found : find_invoice db invoice_id ≡ some invoice
  pub named : invoice.id ≡ invoice_id
  pub store : StoreEntity
  pub of_store : store.id ≡ invoice.store_id
  pub active : store.active ≡ true
  pub in_reach : (n : ℕ) × (n < 16) × Under db.merchants actor.actor_merchant_id n store.merchant_id

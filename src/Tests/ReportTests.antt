-- ===== src/Tests/ReportTests.antt =====
-- The reading handlers.
use bf_techops.Prelude.{◌≡◌, refl, ◌∷◌}
use bf_techops.Prelude.Table.{any_row, select}
use bf_techops.Persistence.Database.{Database}
use bf_techops.MerchantScope.Defs.{add_all, next_frontier, widen, authorized_merchant_ids}
use bf_techops.Invoices.Defs.{list_invoices}
use bf_techops.Payments.Defs.{list_payments}
use bf_techops.Audit.{list_audit}
use bf_techops.Reports.{summary, list_stores}
use bf_techops.Reports.Isolation.{Agrees, reads-Agrees}
use bf_techops.Tests.Fixtures.{env, config, db, invoice, store, actor}

-- The same database, with a store and an invoice of merchant 9, who is not under merchant 1.
abbrev other_db : Database
other_db = record db {
  stores = record store { id = 90; merchant_id = 9 } ∷ db.stores;
  invoices = record invoice { id = 91; merchant_id = 9; store_id = 90 } ∷ db.invoices;
}

agrees : Agrees (authorized_merchant_ids db actor.actor_merchant_id) db other_db
unfolding authorized_merchant_ids widen next_frontier add_all select any_row
agrees = record {
  merchants = refl;
  stores = refl;
  invoices = refl;
  payments = refl;
  refunds = refl;
  events = refl;
  deliveries = refl;
  audits = refl;
}

reads-Agrees_example :
    (summary env config db actor ≡ summary env config other_db actor)
    × (list_stores (λ s. 0) db actor ≡ list_stores (λ s. 0) other_db actor)
    × (list_invoices db actor 10 ≡ list_invoices other_db actor 10)
    × (list_payments db actor 10 ≡ list_payments other_db actor 10)
    × (list_audit db actor 10 ≡ list_audit other_db actor 10)
reads-Agrees_example = reads-Agrees env config (λ s. 0) actor 10 db other_db agrees

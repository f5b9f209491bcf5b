-- ===== src/MerchantScope.antt =====
-- apps/api/src/invoices/merchant-scope.service.ts: which merchants an actor may act for. A merchant
-- acts for itself and for the active merchants below it.
pub mod Defs
pub mod Lists
pub mod Under

-- ===== src/Invoices.antt =====
-- apps/api/src/invoices/invoice.service.ts: InvoiceService.
pub mod Defs
pub mod Lines
pub mod Issue
pub mod Create
pub mod Once
pub mod Transition
pub mod Overtaken
pub mod Get

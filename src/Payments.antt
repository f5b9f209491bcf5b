-- ===== src/Payments.antt =====
-- apps/api/src/payments/payment.service.ts: PaymentService.
pub mod Defs
pub mod Steps
pub mod Capture
pub mod Refund
pub mod Atomicity
pub mod Webhook
pub mod Replay
pub mod Sound
pub mod Status
pub mod Money
pub mod Admission

-- ===== src/Worker.antt =====
-- apps/worker/src: the process that relays the outbox, delivers notifications and purges old rows.
pub mod Fault
pub mod Config
pub mod Batch
pub mod Relay
pub mod Delivery
pub mod Retention

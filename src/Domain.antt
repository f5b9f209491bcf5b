-- ===== src/Domain.antt =====
-- packages/domain/src/index.js: money, status changes, keys.
pub mod Money
pub mod Transition
pub mod IdempotencyKey
pub mod StableJson
pub mod Webhook
pub mod ActorToken

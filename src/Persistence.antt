-- ===== src/Persistence.antt =====
-- packages/persistence: the entities, the database, and the statements that insert rows.
pub mod Entities
pub mod Database
pub mod Insert
pub mod Inversion
pub mod Atomic

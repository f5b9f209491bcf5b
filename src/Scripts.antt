-- ===== src/Scripts.antt =====
-- scripts: the operational scripts that change the database.
pub mod Migrate
pub mod Provision

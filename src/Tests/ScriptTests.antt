-- ===== src/Tests/ScriptTests.antt =====
-- The scripts.
use bf_techops.Prelude.{◌≡◌, refl, true, false, none, List, [], ◌∷◌}
use bf_techops.Prelude.Table.{any_row, select, find_one}
use bf_techops.Js.{Text, codes, text_eq}
use bf_techops.Failure.{Result, ok}
use bf_techops.Config.{ProcessEnv}
use bf_techops.Persistence.Database
use bf_techops.Persistence.Database.{Env, World, pure, gets, draw, transaction}
use bf_techops.Persistence.Insert.{refusal, insert_audit_event}
use bf_techops.Domain.StableJson.{text_leb}
use bf_techops.Scripts.Migrate.{
  MigrationFile, MigrationWorld, ends_with, is_migration, insert_file, migration_files,
  application_user, find_applied, apply_file, apply_files, migrate,
}
use bf_techops.Scripts.Migrate.Again.{migrate_again}
use bf_techops.Scripts.Provision.Input.{ProvisionInput}
use bf_techops.Scripts.Provision.{
  insert_merchant, insert_store, create_tenant, decide, select_and_decide, provision,
}
use bf_techops.Scripts.Provision.Again.{provision_again}
use bf_techops.Tests.Fixtures.{env, world}

abbrev tenant : ProvisionInput
tenant = record {
  change_id = codes "CHG-1";
  merchant_id = 7;
  merchant_name = codes "M";
  store_id = 8;
  store_code = codes "S1";
  store_name = codes "S";
  store_timezone = codes "UTC";
}

abbrev provisioned_world : World
provisioned_world = (provision env tenant world).1

provisions : provision env tenant world ≡ (ok true, provisioned_world)
unfolding provision transaction select_and_decide decide create_tenant insert_merchant insert_store
    insert_audit_event refusal any_row select gets draw pure Database.◌>>=◌
provisions = refl

provision_again_example : provision env tenant provisioned_world ≡ (ok false, provisioned_world)
provision_again_example = provision_again env tenant world provisioned_world true provisions

-- A schema is the list of the texts that ran.
abbrev runs : Text → List Text → Result (Unit {0}) × List Text
runs sql schema = (ok tt, sql ∷ schema)

abbrev files : List MigrationFile
files =
    record { file = codes "002_b.sql"; sql = codes "b" }
    ∷ record { file = codes "001_a.sql"; sql = codes "a" }
    ∷ record { file = codes "README.md"; sql = [] }
    ∷ []

abbrev no_variables : ProcessEnv
no_variables name = none

abbrev empty : MigrationWorld (List Text)
empty = record { schema = []; applied = []; granted = [] }

abbrev migrated : MigrationWorld (List Text)
migrated = (migrate env runs true no_variables files empty).1

migrates : migrate env runs true no_variables files empty ≡ (ok tt, migrated)
unfolding migrate migration_files insert_file is_migration ends_with text_eq text_leb apply_files
    apply_file find_applied find_one application_user
migrates = refl

in_order : migrated.schema ≡ codes "b" ∷ codes "a" ∷ []
unfolding migrate migration_files insert_file is_migration ends_with text_eq text_leb apply_files
    apply_file find_applied find_one application_user
in_order = refl

migrate_again_example :
    ((migrate env runs true no_variables files migrated).0 ≡ ok tt)
    × ((migrate env runs true no_variables files migrated).1.schema ≡ migrated.schema)
    × ((migrate env runs true no_variables files migrated).1.applied ≡ migrated.applied)
migrate_again_example = migrate_again env runs no_variables files empty migrated migrates

-- ===== src/Scripts/Provision.antt =====
-- scripts/provision-tenant.mjs: a root merchant with its first store, in one transaction.
pub mod Input
pub mod Again
use bf_techops.Prelude.{
  ℕ, Bool, true, false, not, ◌&&◌, ◌||◌, Option, none, some, List, [], ◌∷◌, ◌==◌,
}
use bf_techops.Prelude.Table.{any_row, select}
use bf_techops.Js.{Text, text_eq}
use bf_techops.Failure.{error}
use bf_techops.Wire.{Uuid, provisioner, tenant_provisioned}
use bf_techops.Persistence.Entities.{MerchantEntity, StoreEntity, AuditEventEntity}
use bf_techops.Persistence.Database.{
  Env, World, Action, ◌>>=◌, ◌>>◌, pure, throw, throw_if, gets, draw, transaction,
}
use bf_techops.Persistence.Insert.{refusal, insert_audit_event}
use bf_techops.Scripts.Provision.Input.{ProvisionInput}

abbrev pub is_root : Option Uuid → Bool
is_root none = true
is_root (some parent) = false

unfoldable pub exact_merchant : MerchantEntity → ProvisionInput → Bool
exact_merchant row expected =
    row.id == expected.merchant_id
    && is_root row.parent_merchant_id
    && text_eq row.name expected.merchant_name
    && row.active

unfoldable pub exact_store : StoreEntity → ProvisionInput → Bool
exact_store row expected =
    row.id == expected.store_id
    && row.merchant_id == expected.merchant_id
    && text_eq row.code expected.store_code
    && text_eq row.name expected.store_name
    && text_eq row.timezone expected.store_timezone
    && row.active

module _ (env : Env) (input : ProvisionInput) where
  abbrev pub merchant_row : MerchantEntity
  merchant_row = record {
    id = input.merchant_id;
    parent_merchant_id = none;
    name = input.merchant_name;
    active = true;
    created_at = env.now;
    updated_at = env.now;
  }

  abbrev pub store_row : StoreEntity
  store_row = record {
    id = input.store_id;
    merchant_id = input.merchant_id;
    code = input.store_code;
    name = input.store_name;
    timezone = input.store_timezone;
    active = true;
    created_at = env.now;
  }

  abbrev pub provisioned_audit : Uuid → AuditEventEntity
  provisioned_audit id = record {
    id = id;
    merchant_id = input.merchant_id;
    actor_subject = provisioner input.change_id;
    action = "tenant.provisioned";
    resource_type = "merchant";
    resource_id = input.merchant_id;
    request_id = some input.change_id;
    details = tenant_provisioned input.store_id input.store_code;
    created_at = env.now;
  }

  unfoldable pub insert_merchant : Action (Unit {0})
  insert_merchant w =
      refusal true (any_row (λ r. r.id == input.merchant_id) w.merchants) w
        (record w { db = record w.db { merchants = merchant_row ∷ w.merchants } })

  -- `WHERE id = ? OR (merchant_id = ? AND code = ?)`, which is also what the keys of the table refuse.
  abbrev pub same_store : StoreEntity → Bool
  same_store r =
      r.id == input.store_id
      || (r.merchant_id == input.merchant_id
          && env.collation r.code == env.collation input.store_code)

  unfoldable pub insert_store : Action (Unit {0})
  insert_store w =
      refusal true (any_row same_store w.stores) w
        (record w { db = record w.db { stores = store_row ∷ w.stores } })

  -- The three INSERTs; the result says that the tenant is new.
  unfoldable pub create_tenant : Action Bool
  create_tenant = do
    insert_merchant
    insert_store
    id ← draw env
    insert_audit_event (provisioned_audit id)
    pure true

  abbrev pub differs : Action Bool
  differs = throw (
      error
        "Existing tenant/store differs from the requested identity; refusing partial or destructive provisioning")

  -- What is done with the rows that the two SELECTs found.
  unfoldable pub decide : List MerchantEntity → List StoreEntity → Action Bool
  decide [] [] = create_tenant
  decide (m ∷ merchants) [] = differs
  decide [] (s ∷ stores) = differs
  decide (m ∷ merchants) (s ∷ stores) = do
    throw_if (not (exact_merchant m input) || not (exact_store s input)) (
        error
          "Existing tenant/store differs from the requested identity; refusing partial or destructive provisioning")
    pure false

  unfoldable pub select_and_decide : Action Bool
  select_and_decide = do
    merchants ← gets (λ w. select (λ r. r.id == input.merchant_id) w.merchants)
    stores ← gets (λ w. select same_store w.stores)
    decide merchants stores

  -- The script's transaction.
  unfoldable pub provision : Action Bool
  provision = transaction select_and_decide

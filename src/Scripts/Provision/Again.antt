-- ===== src/Scripts/Provision/Again.antt =====
-- scripts/provision-tenant.mjs: a second run for the same tenant.
use bf_techops.Prelude.{
  ℕ, ◌≡◌, refl, subst, Bool, true, false, not, ◌||◌, List, [], ◌∷◌, ◌==◌, ==_refl, arith,
}
use bf_techops.Prelude.Table.{select}
use bf_techops.Failure.{Failure, Result, ok, err, reject_if}
use bf_techops.Persistence.Entities.{MerchantEntity, StoreEntity}
use bf_techops.Persistence.Database as Db
use bf_techops.Persistence.Database.{
  Env, World, Database, Action, ◌>>=◌, ◌>>◌, pure, throw, throw_if, lift, gets, draw, transaction,
  roll_back,
}
use bf_techops.Persistence.Insert.{insert_audit_event}
use bf_techops.Persistence.Inversion.{on_insert, after_draw, pure-ok, on_throw_if, after_gets}
use bf_techops.Domain.ActorToken.RoundTrip.{text_eq_refl}
use bf_techops.Scripts.Provision.Input.{ProvisionInput}
use bf_techops.Scripts.Provision.{
  exact_merchant, exact_store, merchant_row, store_row, provisioned_audit, insert_merchant,
  same_store, insert_store, create_tenant, decide, select_and_decide, provision,
}

cannot_differ {ℓ} :
    {C : Type ℓ} (e : Failure) (w : World) {b : Bool} {w' : World} → throw e w ≡ (ok b, w') → C
unfolding throw
cannot_differ e w h = cc

both_exact : (a b : Bool) → (not a || not b) ≡ false → (a ≡ true) × (b ≡ true)
both_exact a b h = ground arith

module _ (env : Env) (input : ProvisionInput) where
  -- The first merchant and the first store that the SELECTs find are the tenant's, as asked for.
  pub record IsProvisioned (db : Database) : Type 0 where
    pub merchant : MerchantEntity
    pub merchants : List MerchantEntity
    pub store : StoreEntity
    pub stores : List StoreEntity
    pub merchant_found : select (λ r. r.id == input.merchant_id) db.merchants ≡ merchant ∷ merchants
    pub store_found : select (same_store env input) db.stores ≡ store ∷ stores
    pub merchant_exact : exact_merchant merchant input ≡ true
    pub store_exact : exact_store store input ≡ true

  new_rows :
      (db : Database) (w : World)
      → w.db.merchants ≡ merchant_row env input ∷ db.merchants
      → w.db.stores ≡ store_row env input ∷ db.stores
      → IsProvisioned w.db
  unfolding select exact_merchant exact_store
  new_rows db w merchants stores = record {
    merchant = merchant_row env input;
    merchants = select (λ r. r.id == input.merchant_id) db.merchants;
    store = store_row env input;
    stores = select (same_store env input) db.stores;
    merchant_found = rw merchants (rw (==_refl input.merchant_id) refl);
    store_found = rw stores (rw (==_refl input.store_id) refl);
    merchant_exact = rw (==_refl input.merchant_id) (rw (text_eq_refl input.merchant_name) refl);
    store_exact = rw (==_refl input.store_id) (
        rw (==_refl input.merchant_id) (
          rw (text_eq_refl input.store_code)
            (rw (text_eq_refl input.store_name) (rw (text_eq_refl input.store_timezone) refl))));
  }

  audited :
      (w w₂ w' : World) (id drawn : ℕ) {b : Bool}
      → w₂.merchants ≡ merchant_row env input ∷ w.merchants
      → w₂.stores ≡ store_row env input ∷ w.stores
      → (insert_audit_event (provisioned_audit env input id) >> pure true)
          (record w₂ { drawn = drawn })
        ≡ (ok b, w')
      → IsProvisioned w'.db
  unfolding insert_audit_event
  audited w w₂ w' id drawn merchants stores h =
      let v : World = record w₂ { drawn = drawn } in
      let v₁ : World = record v {
        db = record v.db { audit_events = provisioned_audit env input id ∷ v.audit_events };
      } in
      on_insert _ _ (insert_audit_event (provisioned_audit env input id)) _ v v₁ refl h λ _ _ h.
        subst (λ (x : World). IsProvisioned x.db) (pure-ok true v₁ h).1
          (new_rows w.db v₁ merchants stores)

  created : (w w' : World) {b : Bool} → create_tenant env input w ≡ (ok b, w') → IsProvisioned w'.db
  unfolding create_tenant insert_merchant insert_store insert_audit_event
  created w w' h =
      let w₁ : World = record w {
        db = record w.db { merchants = merchant_row env input ∷ w.merchants };
      } in
      let w₂ : World = record w₁ {
        db = record w₁.db { stores = store_row env input ∷ w₁.stores };
      } in
      on_insert _ _ (insert_merchant env input) _ w w₁ refl h λ _ _ h.
        on_insert _ _ (insert_store env input) _ w₁ w₂ refl h
          λ _ _ h. audited w w₂ w' _ _ refl refl (after_draw env _ h)

  decided :
      (merchants : List MerchantEntity) (stores : List StoreEntity) (w w' : World) {b : Bool}
      → select (λ r. r.id == input.merchant_id) w.merchants ≡ merchants
      → select (same_store env input) w.stores ≡ stores
      → decide env input merchants stores w ≡ (ok b, w')
      → IsProvisioned w'.db
  unfolding decide
  decided [] [] w w' m s h = created w w' h
  decided (m ∷ ms) [] w w' e e' h = cannot_differ _ w h
  decided [] (s ∷ ss) w w' e e' h = cannot_differ _ w h
  decided (m ∷ ms) (s ∷ ss) w w' e e' h = on_throw_if _ _ _ h λ exact h.
      subst (λ (x : World). IsProvisioned x.db) (pure-ok false w h).1
        record {
          merchant = m;
          merchants = ms;
          store = s;
          stores = ss;
          merchant_found = e;
          store_found = e';
          merchant_exact = (both_exact _ _ exact).0;
          store_exact = (both_exact _ _ exact).1;
        }

  selected :
      (w w' : World) {b : Bool} → select_and_decide env input w ≡ (ok b, w') → IsProvisioned w'.db
  unfolding select_and_decide
  selected w w' h =
      decided (select (λ r. r.id == input.merchant_id) w.merchants)
        (select (same_store env input) w.stores) w w' refl refl (after_gets _ _ (after_gets _ _ h))

  committed :
      (before : Database) (p : Result Bool × World) {b : Bool} {w' : World}
      → roll_back before p ≡ (ok b, w')
      → p ≡ (ok b, w')
  committed before (ok a, w) h = h
  committed before (err e, w) h = cc

  found_again : (w : World) → IsProvisioned w.db → provision env input w ≡ (ok false, w)
  unfolding provision select_and_decide transaction decide gets throw_if lift reject_if pure
      Db.◌>>=◌
  found_again w r =
      rw r.merchant_found (rw r.store_found (rw r.merchant_exact (rw r.store_exact refl)))

  -- After a run for a tenant that ended well, whether the tenant was new or there already, a run for
  -- the same tenant ends well, finds it there, and changes nothing.
  pub provision_again :
      (w w' : World) (b : Bool)
      → provision env input w ≡ (ok b, w')
      → provision env input w' ≡ (ok false, w')
  unfolding provision transaction
  provision_again w w' b first =
      found_again w' (selected w w' (committed w.db (select_and_decide env input w) first))

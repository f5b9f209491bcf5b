-- ===== src/MerchantScope/Defs.antt =====
-- `authorizedMerchantIds` and `authorizeStore`.
use bf_techops.Prelude.{
  ℕ, zero, suc, Bool, true, false, not, ◌&&◌, Option, none, some, List, [], ◌∷◌, ◌++◌, map, ◌==◌,
  any, if◌then◌else◌,
}
use bf_techops.Prelude.Table.{find_one, select}
use bf_techops.Failure.{Result, ok, err, forbidden, not_found}
use bf_techops.Wire.{Uuid}
use bf_techops.Persistence.Entities.{MerchantEntity, StoreEntity}
use bf_techops.Persistence.Database.{Database}

abbrev pub has : List Uuid → Uuid → Bool
has ids id = any (λ i. id == i) ids

-- `merchant.parent_merchant_id IN (…) AND merchant.active`
abbrev pub is_child_of : List Uuid → MerchantEntity → Bool
is_child_of frontier m = elim m.parent_merchant_id [
  | none ↦ false
  | some p ↦ has frontier p && m.active
]

-- `authorized.add(id)`: a Set keeps what it has, in the order of insertion.
abbrev pub add_id : List Uuid → Uuid → List Uuid
add_id ids id = if has ids id then ids else ids ++ id ∷ []

unfoldable pub add_all : List Uuid → List Uuid → List Uuid
add_all ids [] = ids
add_all ids (i ∷ more) = add_all (add_id ids i) more

-- The identifiers of the children that are not authorized yet.
unfoldable pub next_frontier : List MerchantEntity → List Uuid → List Uuid → List Uuid
next_frontier merchants authorized frontier =
    map (λ m. m.id)
      (select (λ m. not (has authorized m.id)) (select (is_child_of frontier) merchants))

-- The loop of `authorizedMerchantIds`, on the rounds that are left.
unfoldable pub widen : ℕ → List MerchantEntity → List Uuid → List Uuid → List Uuid
widen zero merchants authorized frontier = authorized
widen (suc rounds) merchants authorized [] = authorized
widen (suc rounds) merchants authorized (f ∷ fs) =
    let found = next_frontier merchants authorized (f ∷ fs) in
    widen rounds merchants (add_all authorized found) found

unfoldable pub authorized_merchant_ids : Database → Uuid → List Uuid
authorized_merchant_ids db actor_merchant_id =
    widen 16 db.merchants (actor_merchant_id ∷ []) (actor_merchant_id ∷ [])

-- `merchant?.parentMerchantId ?? null` of the active merchant with this identifier
unfoldable pub parent_of : List MerchantEntity → Uuid → Option Uuid
parent_of merchants id = elim (find_one (λ m. m.id == id && m.active) merchants) [
  | none ↦ none
  | some m ↦ m.parent_merchant_id
]

-- The loop of `authorizeStore`, on the rounds that are left: does it meet the actor?
unfoldable pub climb : ℕ → List MerchantEntity → Uuid → Option Uuid → List Uuid → Bool
climb zero merchants actor current visited = false
climb (suc rounds) merchants actor none visited = false
climb (suc rounds) merchants actor (some m) visited =
    let rest = climb rounds merchants actor (parent_of merchants m) (m ∷ visited) in
    if m == actor then true else if has visited m then false else rest

unfoldable pub find_store : Database → Uuid → Option StoreEntity
find_store db store_id = find_one (λ s. s.id == store_id && s.active) db.stores

abbrev pub check_store : Database → Uuid → Option StoreEntity → Result StoreEntity
check_store db actor none = err (not_found "Store not found")
check_store db actor (some store) =
    if climb 16 db.merchants actor (some store.merchant_id) []
    then ok store
    else err (forbidden "Actor is not authorized for the requested store")

unfoldable pub authorize_store : Database → Uuid → Uuid → Result StoreEntity
authorize_store db actor_merchant_id store_id =
    check_store db actor_merchant_id (find_store db store_id)

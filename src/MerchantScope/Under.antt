-- ===== src/MerchantScope/Under.antt =====
-- Who is below whom in the hierarchy of merchants, for both queries of MerchantScopeService.
use bf_techops.Prelude.{
  ℕ, zero, suc, ◌+◌, ◌≤◌, ◌<◌, ◌≡◌, refl, sym, ap, subst, ◌∙◌, Bool, true, false, not, ◌&&◌, Option,
  none, some, List, [], ◌∷◌, ◌==◌, ==_iff, All, if◌then◌else◌, inl, inr, Bool-cases, arith,
}
use bf_techops.Prelude.Table.{find_one}
use bf_techops.Prelude.Table.Unique.{find_one-holds}
use mathlib.Core.List.{Memᴰ}
use bf_techops.Failure.{Failure, ok, err, ok-injective}
use bf_techops.Wire.{Uuid}
use bf_techops.Persistence.Entities.{MerchantEntity, StoreEntity}
use bf_techops.Persistence.Database.{Database}
use bf_techops.MerchantScope.Defs.{
  has, is_child_of, add_all, next_frontier, widen, authorized_merchant_ids, parent_of, climb,
  find_store, check_store, authorize_store,
}
use bf_techops.MerchantScope.Lists.{
  found-Memᴰ, select-All, select_of_All, All-map, has-All, add_all-All, and_left, and_right,
  goes_on,
}

module _ (merchants : List MerchantEntity) (actor : Uuid) where
  -- `Under n id`: an active merchant, n levels below the actor, or the actor itself.
  pub data Under : ℕ → Uuid → Type 0 where
    itself : Under 0 actor
    child :
        {n : ℕ} (m : MerchantEntity) (p : Uuid)
        → Memᴰ m merchants
        → m.active ≡ true
        → m.parent_merchant_id ≡ some p
        → Under n p
        → Under (suc n) m.id

module _ (merchants : List MerchantEntity) (actor : Uuid) where
  -- At most `d` levels below the actor.
  abbrev pub Within : ℕ → Uuid → Type 0
  Within d id = (n : ℕ) × (n ≤ d) × Under merchants actor n id

  child_row :
      (d : ℕ) (frontier : List Uuid) (m : MerchantEntity)
      → All (Within d) frontier
      → Memᴰ m merchants
      → is_child_of frontier m ≡ true
      → Within (suc d) m.id
  child_row d frontier m below there h = on_parent m.parent_merchant_id refl h
    where
      on_parent :
          (o : Option Uuid)
          → m.parent_merchant_id ≡ o
          → (elim o [ none ↦ false | some p ↦ has frontier p && m.active ]) ≡ true
          → Within (suc d) m.id
      on_parent none e t = cc
      on_parent (some p) e t =
          let (n, bound, under) = has-All (Within d) frontier p (and_left _ _ t) below in
          (suc n, omega (arith, bound), child m p there (and_right _ _ t) e under)

  next_frontier-Within :
      (d : ℕ) (authorized frontier : List Uuid)
      → All (Within d) frontier
      → All (Within (suc d)) (next_frontier merchants authorized frontier)
  unfolding next_frontier
  next_frontier-Within d authorized frontier below =
      All-map (Within (suc d)) (λ m. m.id) _
        (select_of_All (λ m. Within (suc d) m.id) (λ m. not (has authorized m.id)) _
          (select-All (λ m. Within (suc d) m.id) (is_child_of frontier) merchants
            λ m there chosen. child_row d frontier m below there chosen))

  Within-up : (d e : ℕ) → d ≤ e → (ids : List Uuid) → All (Within d) ids → All (Within e) ids
  Within-up d e le [] a = tt
  Within-up d e le (i ∷ ids) a =
      let (n, bound, under) = a.0 in
      ((n, omega (arith, bound, le), under), Within-up d e le ids a.1)

  widen-Within :
      (rounds d : ℕ) (authorized frontier : List Uuid)
      → All (Within d) authorized
      → All (Within d) frontier
      → All (Within (rounds + d)) (widen rounds merchants authorized frontier)
  unfolding widen
  widen-Within zero d authorized frontier a b = Within-up d (0 + d) (omega arith) authorized a
  widen-Within (suc rounds) d authorized [] a b =
      Within-up d (suc rounds + d) (omega arith) authorized a
  widen-Within (suc rounds) d authorized (f ∷ fs) a b =
      let found = next_frontier-Within d authorized (f ∷ fs) b in
      let more = next_frontier merchants authorized (f ∷ fs) in
      Within-up (rounds + suc d) (suc rounds + d) (omega arith) _ (
        widen-Within rounds (suc d) (add_all authorized more) more
          (add_all-All (Within (suc d)) authorized more
            (Within-up d (suc d) (omega arith) authorized a) found)
          found)

  parent_of-child :
      (m p : Uuid) {n : ℕ}
      → parent_of merchants m ≡ some p
      → Under merchants actor n p
      → Under merchants actor (suc n) m
  unfolding parent_of
  parent_of-child m p {n} h under = on_row (find_one (λ r. r.id == m && r.active) merchants) refl h
    where
      on_row :
          (o : Option MerchantEntity)
          → find_one (λ r. r.id == m && r.active) merchants ≡ o
          → (elim o [ none ↦ none | some r ↦ r.parent_merchant_id ]) ≡ some p
          → Under merchants actor (suc n) m
      on_row none found e = cc
      on_row (some r) found e =
          let holds = find_one-holds (λ r. r.id == m && r.active) merchants found in
          subst (Under merchants actor (suc n)) ((==_iff r.id m).0 (and_left _ _ holds))
            (child r p (found-Memᴰ _ merchants found) (and_right _ _ holds) e under)

  at_level :
      (rounds : ℕ) (m : Uuid)
      → (n : ℕ) × (n < suc rounds) × Under merchants actor n m
      → (x : Uuid) × (some m ≡ some x) × (n : ℕ) × (n < suc rounds) × Under merchants actor n x
  at_level rounds m (n, bound, under) = (m, refl, n, bound, under)

  climb-Under :
      (rounds : ℕ) (current : Option Uuid) (visited : List Uuid)
      → climb rounds merchants actor current visited ≡ true
      → (m : Uuid) × (current ≡ some m) × (n : ℕ) × (n < rounds) × Under merchants actor n m
  unfolding climb
  climb-Under zero current visited h = cc
  climb-Under (suc rounds) none visited h = cc
  climb-Under (suc rounds) (some m) visited h = at_level rounds m (elim (Bool-cases (m == actor)) [
    | inl e ↦ (0, omega arith, subst (Under merchants actor 0) (sym ((==_iff m actor).0 e)) itself)
    | inr e ↦
        let (p, parent, n, bound, under) =
          climb-Under rounds (parent_of merchants m) (m ∷ visited)
            (goes_on (m == actor) (has visited m) _ e h) in
        (suc n, omega (arith, bound), parent_of-child m p parent under)
  ])

-- Every merchant that `authorizedMerchantIds` lists is the actor, or an active merchant at most 16
-- levels below it, each step being from an active merchant to the parent that its row names.
pub authorized_merchant_ids-Under :
    (db : Database) (actor : Uuid)
    → All (Within db.merchants actor 16) (authorized_merchant_ids db actor)
unfolding authorized_merchant_ids
authorized_merchant_ids-Under db actor =
    widen-Within db.merchants actor 16 0 (actor ∷ []) (actor ∷ []) ((0, omega arith, itself), tt)
      ((0, omega arith, itself), tt)

abbrev or_else : Uuid → Option Uuid → Uuid
or_else a none = a
or_else a (some b) = b

chosen :
    (c : Bool) (s : StoreEntity) (e : Failure) {store : StoreEntity}
    → (if c then ok s else err e) ≡ ok store
    → (c ≡ true) × (s ≡ store)
chosen true s e h = (refl, ok-injective h)
chosen false s e h = cc

some-injective : {a b : Uuid} → some a ≡ some b → a ≡ b
some-injective {a} h = ap (or_else a) h

-- A store that `authorizeStore` returns is the active store with the given identifier, and its
-- merchant is the actor or stands less than 16 levels below it.
pub authorize_store-Under :
    (db : Database) (actor store_id : Uuid) (store : StoreEntity)
    → authorize_store db actor store_id ≡ ok store
    → (find_store db store_id ≡ some store)
      × (store.id ≡ store_id)
      × (store.active ≡ true)
      × ((n : ℕ) × (n < 16) × Under db.merchants actor n store.merchant_id)
unfolding authorize_store find_store
authorize_store-Under db actor store_id store h = on_store (find_store db store_id) refl h
  where
    on_store :
        (o : Option StoreEntity)
        → find_store db store_id ≡ o
        → check_store db actor o ≡ ok store
        → (o ≡ some store)
          × (store.id ≡ store_id)
          × (store.active ≡ true)
          × ((n : ℕ) × (n < 16) × Under db.merchants actor n store.merchant_id)
    on_store none found e = cc
    on_store (some s) found e =
        let (meets, same) = chosen (climb 16 db.merchants actor (some s.merchant_id) []) s _ e in
        let holds =
          find_one-holds (λ s. s.id == store_id && s.active) db.stores (found ∙ ap some same) in
        let (m, is_m, n, bound, under) =
          climb-Under db.merchants actor 16 (some s.merchant_id) [] meets in
        (
          ap some same,
          (==_iff store.id store_id).0 (and_left _ _ holds),
          and_right _ _ holds,
          (
            n,
            bound,
            subst (Under db.merchants actor n)
                (sym (some-injective is_m) ∙ ap (λ (r : StoreEntity). r.merchant_id) same) under,
          ),
        )

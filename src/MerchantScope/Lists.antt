-- ===== src/MerchantScope/Lists.antt =====
-- Lists of merchants and of their identifiers: what holds for every one.
use bf_techops.Prelude.{
  ◌≡◌, refl, sym, subst, Bool, true, false, ◌&&◌, ◌||◌, some, List, [], ◌∷◌, ◌++◌, map, ◌==◌,
  ==_iff, All, if◌then◌else◌, inl, inr, Bool-cases,
}
use bf_techops.Prelude.Table.{find_one, select}
use bf_techops.Prelude.Table.Unique.{on_found}
use mathlib.Core.List.{Memᴰ}
use bf_techops.Wire.{Uuid}
use bf_techops.MerchantScope.Defs.{has, add_all}

pub found-Memᴰ {ℓ} :
    {A : Type ℓ} (p : A → Bool) (rows : List A) {x : A} → find_one p rows ≡ some x → Memᴰ x rows
unfolding find_one
found-Memᴰ p [] h = cc
found-Memᴰ p (r ∷ rows) h =
    on_found p r rows h (λ _ same. Memᴰ.head (sym same)) λ _ h'. Memᴰ.tail (found-Memᴰ p rows h')

pub select-All {ℓ κ} :
    {A : Type ℓ} (P : A → Type κ) (p : A → Bool) (rows : List A)
    → ((r : A) → Memᴰ r rows → p r ≡ true → P r)
    → All P (select p rows)
unfolding select
select-All P p [] k = tt
select-All P p (r ∷ rows) k =
    let rest = select-All P p rows (λ s there. k s (Memᴰ.tail there)) in
    elim (Bool-cases (p r)) [ inl e ↦ rw e (k r (Memᴰ.head refl) e, rest) | inr e ↦ rw e rest ]

pub select_of_All {ℓ κ} :
    {A : Type ℓ} (P : A → Type κ) (p : A → Bool) (rows : List A)
    → All P rows
    → All P (select p rows)
unfolding select
select_of_All P p [] a = tt
select_of_All P p (r ∷ rows) a = elim (Bool-cases (p r)) [
  | inl e ↦ rw e (a.0, select_of_All P p rows a.1)
  | inr e ↦ rw e (select_of_All P p rows a.1)
]

pub All-map {ℓ κ μ} :
    {A : Type ℓ} {B : Type κ} (P : B → Type μ) (f : A → B) (rows : List A)
    → All (λ r. P (f r)) rows
    → All P (map f rows)
All-map P f [] a = tt
All-map P f (r ∷ rows) a = (a.0, All-map P f rows a.1)

pub or_false_left : (a b : Bool) → a ≡ false → (a || b) ≡ true → b ≡ true
or_false_left true b e h = cc
or_false_left false b e h = h

pub has-All {κ} :
    (P : Uuid → Type κ) (ids : List Uuid) (id : Uuid) → has ids id ≡ true → All P ids → P id
has-All P [] id h a = cc
has-All P (i ∷ ids) id h a = elim (Bool-cases (id == i)) [
  | inl e ↦ subst P (sym ((==_iff id i).0 e)) a.0
  | inr e ↦ has-All P ids id (or_false_left _ _ e h) a.1
]

pub append-All {κ} :
    (P : Uuid → Type κ) (ids : List Uuid) (id : Uuid) → All P ids → P id → All P (ids ++ id ∷ [])
append-All P [] id a p = (p, tt)
append-All P (i ∷ ids) id a p = (a.0, append-All P ids id a.1 p)

pub add_all-All {κ} :
    (P : Uuid → Type κ) (ids more : List Uuid) → All P ids → All P more → All P (add_all ids more)
unfolding add_all
add_all-All P ids [] a b = a
add_all-All P ids (i ∷ more) a b = elim (Bool-cases (has ids i)) [
  | inl e ↦ rw e (add_all-All P ids more a b.1)
  | inr e ↦ rw e (add_all-All P (ids ++ i ∷ []) more (append-All P ids i a b.0) b.1)
]

pub and_left : (a b : Bool) → (a && b) ≡ true → a ≡ true
and_left true b h = refl
and_left false b h = cc

pub and_right : (a b : Bool) → (a && b) ≡ true → b ≡ true
and_right true b h = h
and_right false b h = cc

pub goes_on :
    (a b r : Bool) → a ≡ false → (if a then true else if b then false else r) ≡ true → r ≡ true
goes_on true b r e h = cc
goes_on false true r e h = cc
goes_on false false r e h = h

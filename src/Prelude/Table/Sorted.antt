-- ===== src/Prelude/Table/Sorted.antt =====
-- `ORDER BY … ASC LIMIT n`: what is chosen, and what is left out.
use Prim.Native.Nat.{ℕ, zero, suc, ◌≤◌}
use mathlib.Core.Path.{◌≡◌, refl, ap, sym, subst}
use mathlib.Core.Bool.{Bool, true}
use mathlib.Core.Logic.{◌⊎◌, inl, inr}
use mathlib.Core.List.{List, [], ◌∷◌, Memᴰ}
use native.Mathlib.Omega.{arith}
use bf_techops.Prelude.Tests.{leb, Bool-cases}
use bf_techops.Prelude.Lists.{All, length, take}
use bf_techops.Prelude.Table.{select, insert_asc, order_asc}

module _ {ℓ κ} {A : Type ℓ} (P : A → Type κ) where
  pub take-All : (n : ℕ) (rows : List A) → All P rows → All P (take n rows)
  take-All zero rows a = tt
  take-All (suc n) [] a = tt
  take-All (suc n) (r ∷ rows) a = (a.0, take-All n rows a.1)

  pub All-Memᴰ : (rows : List A) {x : A} → All P rows → Memᴰ x rows → P x
  All-Memᴰ [] a m = elim m [ ]
  All-Memᴰ (r ∷ rows) a (Memᴰ.head e) = subst P (sym e) a.0
  All-Memᴰ (r ∷ rows) a (Memᴰ.tail m) = All-Memᴰ rows a.1 m

module _ {ℓ} {A : Type ℓ} where
  pub select-Memᴰ :
      (p : A → Bool) (rows : List A) {x : A} → Memᴰ x rows → p x ≡ true → Memᴰ x (select p rows)
  unfolding select
  select-Memᴰ p [] m h = elim m [ ]
  select-Memᴰ p (r ∷ rows) {x} (Memᴰ.head e) h = rw (ap p (sym e)) (rw h (Memᴰ.head e))
  select-Memᴰ p (r ∷ rows) (Memᴰ.tail m) h = elim (Bool-cases (p r)) [
    | inl c ↦ rw c (Memᴰ.tail (select-Memᴰ p rows m h))
    | inr c ↦ rw c (select-Memᴰ p rows m h)
  ]

module _ {ℓ} {A : Type ℓ} (f : A → ℕ) where
  pub insert_asc-All {κ} :
      (P : A → Type κ) (r : A) (rows : List A) → P r → All P rows → All P (insert_asc f r rows)
  unfolding insert_asc
  insert_asc-All P r [] p a = (p, tt)
  insert_asc-All P r (s ∷ rows) p a = elim (Bool-cases (leb (f r) (f s))) [
    | inl c ↦ rw c (p, a)
    | inr c ↦ rw c (a.0, insert_asc-All P r rows p a.1)
  ]

  pub order_asc-All {κ} : (P : A → Type κ) (rows : List A) → All P rows → All P (order_asc f rows)
  unfolding order_asc
  order_asc-All P [] a = tt
  order_asc-All P (r ∷ rows) a =
      insert_asc-All P r (order_asc f rows) a.0 (order_asc-All P rows a.1)

  inserted-Memᴰ : (r : A) (rows : List A) → Memᴰ r (insert_asc f r rows)
  unfolding insert_asc
  inserted-Memᴰ r [] = Memᴰ.head refl
  inserted-Memᴰ r (s ∷ rows) = elim (Bool-cases (leb (f r) (f s))) [
    | inl c ↦ rw c (Memᴰ.head refl)
    | inr c ↦ rw c (Memᴰ.tail (inserted-Memᴰ r rows))
  ]

  kept-Memᴰ : (r : A) (rows : List A) {x : A} → Memᴰ x rows → Memᴰ x (insert_asc f r rows)
  unfolding insert_asc
  kept-Memᴰ r [] m = elim m [ ]
  kept-Memᴰ r (s ∷ rows) (Memᴰ.head e) = elim (Bool-cases (leb (f r) (f s))) [
    | inl c ↦ rw c (Memᴰ.tail (Memᴰ.head e))
    | inr c ↦ rw c (Memᴰ.head e)
  ]
  kept-Memᴰ r (s ∷ rows) (Memᴰ.tail m) = elim (Bool-cases (leb (f r) (f s))) [
    | inl c ↦ rw c (Memᴰ.tail (Memᴰ.tail m))
    | inr c ↦ rw c (Memᴰ.tail (kept-Memᴰ r rows m))
  ]

  pub order_asc-Memᴰ : (rows : List A) {x : A} → Memᴰ x rows → Memᴰ x (order_asc f rows)
  unfolding order_asc
  order_asc-Memᴰ [] m = elim m [ ]
  order_asc-Memᴰ (r ∷ rows) {x} (Memᴰ.head e) =
      subst (λ (y : A). Memᴰ y (insert_asc f r (order_asc f rows))) (sym e)
        (inserted-Memᴰ r (order_asc f rows))
  order_asc-Memᴰ (r ∷ rows) (Memᴰ.tail m) = kept-Memᴰ r (order_asc f rows) (order_asc-Memᴰ rows m)

  abbrev pub Ascending : List A → Type 0
  Ascending [] = Unit
  Ascending (r ∷ rows) = All (λ s. f r ≤ f s) rows × Ascending rows

  below-All :
      (r s : A)
      → f r ≤ f s
      → (rows : List A) → All (λ t. f s ≤ f t) rows
      → All (λ t. f r ≤ f t) rows
  below-All r s h [] a = tt
  below-All r s h (t ∷ rows) a = (omega (arith, a.0), below-All r s h rows a.1)

  insert_asc-Ascending : (r : A) (rows : List A) → Ascending rows → Ascending (insert_asc f r rows)
  unfolding insert_asc
  insert_asc-Ascending r [] a = (tt, tt)
  insert_asc-Ascending r (s ∷ rows) a = elim (Bool-cases (leb (f r) (f s))) [
    | inl c ↦ let le : f r ≤ f s = ground arith in rw c ((le, below-All r s le rows a.0), a)
    | inr c ↦
        rw c (
          insert_asc-All (λ t. f s ≤ f t) r rows (ground arith) a.0,
          insert_asc-Ascending r rows a.1,
        )
  ]

  pub order_asc-Ascending : (rows : List A) → Ascending (order_asc f rows)
  unfolding order_asc
  order_asc-Ascending [] = tt
  order_asc-Ascending (r ∷ rows) =
      insert_asc-Ascending r (order_asc f rows) (order_asc-Ascending rows)

  -- What `LIMIT n` leaves out comes after all that it takes, and then it takes n.
  pub take-Ascending :
      (n : ℕ) (rows : List A) {x : A}
      → Ascending rows
      → Memᴰ x rows
      → Memᴰ x (take n rows) ⊎ ((length (take n rows) ≡ n) × All (λ s. f s ≤ f x) (take n rows))
  take-Ascending zero rows a m = inr (refl, tt)
  take-Ascending (suc n) [] a m = elim m [ ]
  take-Ascending (suc n) (r ∷ rows) a (Memᴰ.head e) = inl (Memᴰ.head e)
  take-Ascending (suc n) (r ∷ rows) {x} a (Memᴰ.tail m) = elim (take-Ascending n rows a.1 m) [
    | inl chosen ↦ inl (Memᴰ.tail chosen)
    | inr (full, earlier) ↦ inr (ap suc full, (All-Memᴰ (λ s. f r ≤ f s) rows a.0 m, earlier))
  ]

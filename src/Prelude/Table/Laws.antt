-- ===== src/Prelude/Table/Laws.antt =====
-- How the queries of a table see an UPDATE.
use mathlib.Core.Option
use mathlib.Core.Option.{Option, none, some}
use bf_techops.Prelude.Table.{find_one, update_where, sum_where}
use Prim.Native.Nat.{ℕ}
use mathlib.Core.Path.{◌≡◌, refl}
use mathlib.Core.Bool.{Bool}
use mathlib.Core.List.{List, [], ◌∷◌}
use bf_techops.Prelude.Tests.{if◌then◌else◌, Bool-cases}
use mathlib.Core.Logic.{inl, inr}

-- The row as an UPDATE leaves it.
abbrev pub updated {ℓ} : {A : Type ℓ} → (A → Bool) → (A → A) → A → A
updated q f r = if q r then f r else r

module _ {ℓ} {A : Type ℓ} (p q : A → Bool) (f : A → A) (keeps : (r : A) → p (f r) ≡ p r) where
  p-updated : (r : A) → p (updated q f r) ≡ p r
  p-updated r = elim (Bool-cases (q r)) [ inl e ↦ rw e (keeps r) | inr e ↦ rw e refl ]

  pub find_one-update_where :
      (rows : List A)
      → find_one p (update_where q f rows) ≡ Option.map (updated q f) (find_one p rows)
  unfolding find_one update_where
  find_one-update_where [] = refl
  find_one-update_where (r ∷ rows) = elim (Bool-cases (p r)) [
    | inl e ↦ rw (p-updated r) (rw e refl)
    | inr e ↦ rw (p-updated r) (rw e (find_one-update_where rows))
  ]

module _ {ℓ} {A : Type ℓ} (p q : A → Bool) (v : A → ℕ) (f : A → A) where
  -- A column that the UPDATE leaves alone has the same sum.
  pub sum_where-update_where :
      ((r : A) → p (f r) ≡ p r)
      → ((r : A) → v (f r) ≡ v r)
      → (rows : List A) → sum_where p v (update_where q f rows) ≡ sum_where p v rows
  unfolding sum_where update_where
  sum_where-update_where same keeps [] = refl
  sum_where-update_where same keeps (r ∷ rows) = elim (Bool-cases (q r)) [
    | inl e ↦ rw e (rw (same r) (rw (keeps r) (rw (sum_where-update_where same keeps rows) refl)))
    | inr e ↦ rw e (rw (sum_where-update_where same keeps rows) refl)
  ]

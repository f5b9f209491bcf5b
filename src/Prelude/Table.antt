-- ===== src/Prelude/Table.antt =====
-- A database table as the list of its rows, newest first, with the statements that the
-- repositories issue: find one row, update the rows that a condition selects, sum a column.
pub mod Laws
pub mod Unique
pub mod Single
pub mod Sorted
pub mod Count
use Prim.Native.Nat.{ℕ, ◌+◌}
use mathlib.Core.Bool.{Bool, false, ◌||◌}
use mathlib.Core.Option.{Option, none, some}
use mathlib.Core.List.{List, [], ◌∷◌}
use bf_techops.Prelude.Tests.{leb, if◌then◌else◌}

module _ {ℓ} {A : Type ℓ} where
  -- The first row that meets the condition.
  unfoldable pub find_one : (A → Bool) → List A → Option A
  find_one p [] = none
  find_one p (r ∷ rows) = if p r then some r else find_one p rows

  unfoldable pub any_row : (A → Bool) → List A → Bool
  any_row p [] = false
  any_row p (r ∷ rows) = p r || any_row p rows

  -- `UPDATE … SET f WHERE p`
  unfoldable pub update_where : (A → Bool) → (A → A) → List A → List A
  update_where p f [] = []
  update_where p f (r ∷ rows) = (if p r then f r else r) ∷ update_where p f rows

  -- `SELECT … WHERE p`
  unfoldable pub select : (A → Bool) → List A → List A
  select p [] = []
  select p (r ∷ rows) = let rest = select p rows in if p r then r ∷ rest else rest

  -- `SELECT SUM(f) WHERE p`
  unfoldable pub sum_where : (A → Bool) → (A → ℕ) → List A → ℕ
  sum_where p f [] = 0
  sum_where p f (r ∷ rows) = (if p r then f r else 0) + sum_where p f rows

  -- The number of rows that meet the condition.
  unfoldable pub count_where : (A → Bool) → List A → ℕ
  count_where p [] = 0
  count_where p (r ∷ rows) = (if p r then 1 else 0) + count_where p rows

-- `ORDER BY f DESC`; rows with the same value keep their order.
module _ {ℓ} {A : Type ℓ} (f : A → ℕ) where
  unfoldable pub insert_desc : A → List A → List A
  insert_desc r [] = r ∷ []
  insert_desc r (s ∷ rows) =
      let rest = insert_desc r rows in if leb (f s) (f r) then r ∷ s ∷ rows else s ∷ rest

  unfoldable pub order_desc : List A → List A
  unfolding insert_desc
  order_desc [] = []
  order_desc (r ∷ rows) = insert_desc r (order_desc rows)

-- `ORDER BY f ASC`
module _ {ℓ} {A : Type ℓ} (f : A → ℕ) where
  unfoldable pub insert_asc : A → List A → List A
  insert_asc r [] = r ∷ []
  insert_asc r (s ∷ rows) =
      let rest = insert_asc r rows in if leb (f r) (f s) then r ∷ s ∷ rows else s ∷ rest

  unfoldable pub order_asc : List A → List A
  unfolding insert_asc
  order_asc [] = []
  order_asc (r ∷ rows) = insert_asc r (order_asc rows)

-- `DELETE … WHERE p`
unfoldable pub delete_where {ℓ} : {A : Type ℓ} → (A → Bool) → List A → List A
delete_where p [] = []
delete_where p (r ∷ rows) = let rest = delete_where p rows in if p r then rest else r ∷ rest

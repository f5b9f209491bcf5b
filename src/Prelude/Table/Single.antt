-- ===== src/Prelude/Table/Single.antt =====
-- An UPDATE of one row, seen by a sum.
use Prim.Native.Nat.{ℕ, ◌+◌}
use mathlib.Core.Path.{◌≡◌, refl, sym, ap, ◌∙◌}
use mathlib.Core.Bool.{Bool, true, false, ◌||◌}
use mathlib.Core.Logic.{inl, inr}
use mathlib.Core.Option.{some}
use mathlib.Core.List.{List, [], ◌∷◌}
use native.Mathlib.Omega.{arith}
use bf_techops.Prelude.Tests.{◌==◌, ==_refl, Bool-cases}
use bf_techops.Prelude.Table.{find_one, any_row, update_where, sum_where}
use bf_techops.Prelude.Table.Unique.{Distinct, on_found, found_key, absurd_bool}

or_false_right : (a b : Bool) → (a || b) ≡ false → b ≡ false
or_false_right true b h = absurd_bool h
or_false_right false b h = h

module _ {ℓ} {A : Type ℓ} (key : A → ℕ) (p q : A → Bool) (v : A → ℕ) (f : A → A) (x : A)
    (only : (r : A) → q r ≡ true → key r ≡ key x) where
  elsewhere :
      (rows : List A) → any_row (λ s. key s == key x) rows ≡ false → update_where q f rows ≡ rows
  unfolding any_row update_where
  elsewhere [] h = refl
  elsewhere (r ∷ rows) h = elim (Bool-cases (q r)) [
    | inl e ↦ absurd_bool (sym (rw (only r e) (rw (==_refl (key x)) refl)) ∙ h)
    | inr e ↦ rw e (ap (λ (rest : List A). r ∷ rest) (elsewhere rows (or_false_right _ _ h)))
  ]

  head_updated :
      (r : A) (rows : List A)
      → r ≡ x
      → q x ≡ true
      → p x ≡ true
      → p (f x) ≡ true
      → any_row (λ s. key s == key r) rows ≡ false
      → sum_where p v (update_where q f (r ∷ rows)) + v x ≡ sum_where p v (r ∷ rows) + v (f x)
  unfolding sum_where update_where
  head_updated r rows same hit here kept fresh =
      let untouched = elsewhere rows (rw (sym same) fresh) in
      rw same (rw hit (rw kept (rw here (rw untouched (omega arith)))))

  -- A row before the one that is updated stays.
  skipped :
      (r : A) (s : A → Bool) (rows : List A)
      → any_row (λ s. key s == key r) rows ≡ false
      → find_one s rows ≡ some x
      → q r ≡ false
  skipped r s rows fresh found = elim (Bool-cases (q r)) [
    | inl e ↦ absurd_bool (
        sym (found_key key _ rows found)
        ∙ ap (λ (k : ℕ). any_row (λ s. key s == k) rows) (sym (only r e))
        ∙ fresh)
    | inr e ↦ e
  ]

  -- The sum grows by what the row's column grows by.
  pub sum_where-update_one :
      (s : A → Bool) (rows : List A)
      → q x ≡ true
      → p x ≡ true
      → p (f x) ≡ true
      → Distinct key rows
      → find_one s rows ≡ some x
      → sum_where p v (update_where q f rows) + v x ≡ sum_where p v rows + v (f x)
  unfolding sum_where update_where find_one
  sum_where-update_one s [] hit here kept distinct h = cc
  sum_where-update_one s (r ∷ rows) hit here kept distinct h =
      on_found s r rows h (λ _ same. head_updated r rows same hit here kept distinct.0)
        λ _ h'.
          let rest = sum_where-update_one s rows hit here kept distinct.1 h' in
          rw (skipped r s rows distinct.0 h') (omega arith)

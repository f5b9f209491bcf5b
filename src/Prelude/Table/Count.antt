-- ===== src/Prelude/Table/Count.antt =====
-- Counting rows, and the rows that a unique column tells apart.
use Prim.Native.Nat.{ℕ, ◌+◌, ◌≤◌}
use mathlib.Core.Path.{◌≡◌, refl, ap, sym, ◌∙◌}
use mathlib.Core.Bool.{Bool, true, false}
use mathlib.Core.Logic.{◌⊎◌, inl, inr}
use mathlib.Core.List.{List, [], ◌∷◌, Memᴰ}
use native.Mathlib.Omega.{arith}
use bf_techops.Prelude.Tests.{◌==◌, ==_refl, Bool-cases}
use bf_techops.Prelude.Lists.{All}
use bf_techops.Prelude.Table.{any_row, update_where, count_where}
use bf_techops.Prelude.Table.Unique.{Distinct, All-fresh, absurd_bool}
use bf_techops.Prelude.Table.Sorted.{All-Memᴰ}

module _ {ℓ} {A : Type ℓ} where
  -- No row meets the condition, or one does.
  pub count_where-cases :
      (p : A → Bool) (rows : List A)
      → (count_where p rows ≡ 0) ⊎ ((x : A) × (Memᴰ x rows × (p x ≡ true)))
  unfolding count_where
  count_where-cases p [] = inl refl
  count_where-cases p (r ∷ rows) = elim (Bool-cases (p r)) [
    | inl c ↦ inr (r, (Memᴰ.head refl, c))
    | inr c ↦ elim (count_where-cases p rows) [
      | inl e ↦ inl (rw c (omega (arith, e)))
      | inr (x, (m, h)) ↦ inr (x, (Memᴰ.tail m, h))
    ]
  ]

  pub count_where-none :
      (p : A → Bool) (rows : List A) → count_where p rows ≤ 0 → All (λ r. p r ≡ false) rows
  unfolding count_where
  count_where-none p [] h = tt
  count_where-none p (r ∷ rows) h = (ground arith, count_where-none p rows (omega (arith, h)))

module _ {ℓ} {A : Type ℓ} (p q : A → Bool) (f : A → A) (ends : (r : A) → p (f r) ≡ false) where
  -- An UPDATE to rows that do not meet the condition.
  pub count_where-le : (rows : List A) → count_where p (update_where q f rows) ≤ count_where p rows
  unfolding count_where update_where
  count_where-le [] = omega arith
  count_where-le (r ∷ rows) = elim (Bool-cases (q r)) [
    | inl c ↦ rw c (rw (ends r) (omega (arith, count_where-le rows)))
    | inr c ↦ rw c (omega (arith, count_where-le rows))
  ]

  pub count_where-lt :
      (rows : List A) {x : A}
      → Memᴰ x rows
      → p x ≡ true
      → q x ≡ true
      → 1 + count_where p (update_where q f rows) ≤ count_where p rows
  unfolding count_where update_where
  count_where-lt [] m h c = elim m [ ]
  count_where-lt (r ∷ rows) (Memᴰ.head e) h c =
      rw (ap q (sym e) ∙ c)
        (rw (ends r) (rw (ap p (sym e) ∙ h) (omega (arith, count_where-le rows))))
  count_where-lt (r ∷ rows) (Memᴰ.tail m) h c = elim (Bool-cases (q r)) [
    | inl d ↦ rw d (rw (ends r) (omega (arith, count_where-lt rows m h c)))
    | inr d ↦ rw d (omega (arith, count_where-lt rows m h c))
  ]

module _ {ℓ} {A : Type ℓ} (key : A → ℕ) where
  same_row :
      (r a : A) (rows : List A)
      → any_row (λ s. key s == key r) rows ≡ false
      → Memᴰ a rows
      → (key a == key r) ≡ false
  same_row r a rows d m =
      All-Memᴰ (λ s. (key s == key r) ≡ false) rows (All-fresh key (key r) rows d) m

  same_key : (a b : A) → key a ≡ key b → (key a == key b) ≡ true
  same_key a b h = rw h (==_refl (key b))

  -- In distinct rows, a key is one row's.
  pub Distinct-same :
      (rows : List A) {a b : A}
      → Distinct key rows
      → Memᴰ a rows
      → Memᴰ b rows
      → key a ≡ key b
      → a ≡ b
  Distinct-same [] d m n h = elim m [ ]
  Distinct-same (r ∷ rows) d (Memᴰ.head e) (Memᴰ.head e') h = e ∙ sym e'
  Distinct-same (r ∷ rows) {a} {b} d (Memᴰ.head e) (Memᴰ.tail n) h =
      absurd_bool (sym (same_key b r (sym h ∙ ap key e)) ∙ same_row r b rows d.0 n)
  Distinct-same (r ∷ rows) {a} {b} d (Memᴰ.tail m) (Memᴰ.head e) h =
      absurd_bool (sym (same_key a r (h ∙ ap key e)) ∙ same_row r a rows d.0 m)
  Distinct-same (r ∷ rows) d (Memᴰ.tail m) (Memᴰ.tail n) h = Distinct-same rows d.1 m n h

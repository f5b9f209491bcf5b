-- ===== src/Worker/Batch.antt =====
-- A batch of the oldest rows that a condition selects, and the statement that names its rows by
-- their identifiers.
use bf_techops.Prelude.{
  ℕ, zero, suc, ◌+◌, ◌≤◌, ◌≡◌, refl, ap, ◌∙◌, Bool, true, false, ◌||◌, List, [], ◌∷◌, map, inl, inr,
  ◌==◌, ==_refl, leb, if◌then◌else◌, length, take, All, Bool-cases, arith,
}
use bf_techops.Prelude.Table.{any_row, select, insert_asc, order_asc, count_where}
use bf_techops.Prelude.Table.Unique
use bf_techops.Prelude.Table.Unique.{Distinct, or_true, absurd_bool}
use bf_techops.Prelude.Table.Count.{Distinct-same}
use mathlib.Core.List.{Memᴰ}
use bf_techops.MerchantScope.Lists.{All-map, has-All}
use bf_techops.MerchantScope.Defs.{has}

or_left : (a b : Bool) → (a || b) ≡ false → a ≡ false
or_left true b h = h
or_left false b h = refl

or_right : (a b : Bool) → (a || b) ≡ false → b ≡ false
or_right true b h = cc
or_right false b h = h

module _ {ℓ} {A : Type ℓ} where
  count_none : (rows : List A) → count_where (λ r. false) rows ≤ 0
  unfolding count_where
  count_none [] = omega arith
  count_none (r ∷ rows) = omega (arith, count_none rows)

  count_or :
      (p q : A → Bool) (rows : List A)
      → count_where (λ r. p r || q r) rows ≤ count_where p rows + count_where q rows
  unfolding count_where
  count_or p q [] = omega arith
  count_or p q (r ∷ rows) = ground (arith, count_or p q rows)

  count_take :
      (p : A → Bool) (n : ℕ) (rows : List A) → count_where p (take n rows) ≤ count_where p rows
  unfolding count_where
  count_take p zero rows = omega arith
  count_take p (suc n) [] = omega arith
  count_take p (suc n) (r ∷ rows) = omega (arith, count_take p n rows)

  count_select :
      (p q : A → Bool) (rows : List A) → count_where p (select q rows) ≤ count_where p rows
  unfolding count_where select
  count_select p q [] = omega arith
  count_select p q (r ∷ rows) = elim (Bool-cases (q r)) [
    | inl c ↦ rw c (omega (arith, count_select p q rows))
    | inr c ↦ rw c (omega (arith, count_select p q rows))
  ]

  count_insert :
      (p : A → Bool) (f : A → ℕ) (r : A) (rows : List A)
      → count_where p (insert_asc f r rows) ≡ (if p r then 1 else 0) + count_where p rows
  unfolding count_where insert_asc
  count_insert p f r [] = refl
  count_insert p f r (s ∷ rows) = elim (Bool-cases (leb (f r) (f s))) [
    | inl c ↦ rw c refl
    | inr c ↦ rw c (omega (arith, count_insert p f r rows))
  ]

  count_order :
      (p : A → Bool) (f : A → ℕ) (rows : List A)
      → count_where p (order_asc f rows) ≡ count_where p rows
  unfolding count_where order_asc
  count_order p f [] = refl
  count_order p f (r ∷ rows) =
      omega (arith, count_insert p f r (order_asc f rows), count_order p f rows)

  count_every :
      (p : A → Bool) (rows : List A) → All (λ r. p r ≡ true) rows → count_where p rows ≡ length rows
  unfolding count_where
  count_every p [] a = refl
  count_every p (r ∷ rows) (h, a) = rw h (omega (arith, count_every p rows a))

  All-mem {κ} : (P : A → Type κ) (rows : List A) → ((r : A) → Memᴰ r rows → P r) → All P rows
  All-mem P [] k = tt
  All-mem P (r ∷ rows) k = (k r (Memᴰ.head refl), All-mem P rows λ s m. k s (Memᴰ.tail m))

-- The `n` oldest rows that the condition selects.
unfoldable pub batch {ℓ} : {A : Type ℓ} → ℕ → (A → ℕ) → (A → Bool) → List A → List A
batch n f p rows = take n (order_asc f (select p rows))

other_key : (k i j : ℕ) → (i == k) ≡ true → (j == i) ≡ false → (j == k) ≡ false
other_key k i j c d = ground arith

module _ {ℓ} {A : Type ℓ} (key : A → ℕ) where
  none_else :
      (k : ℕ) (r : A) (rows : List A)
      → (key r == k) ≡ true
      → any_row (λ s. key s == key r) rows ≡ false
      → count_where (λ s. key s == k) rows ≡ 0
  unfolding any_row count_where
  none_else k r [] c d = refl
  none_else k r (s ∷ rows) c d =
      rw (other_key k (key r) (key s) c (or_left _ _ d))
        (omega (arith, none_else k r rows c (or_right _ _ d)))

  pub has-Memᴰ : (batch : List A) {r : A} → Memᴰ r batch → has (map key batch) (key r) ≡ true
  has-Memᴰ [] m = elim m [ ]
  has-Memᴰ (s ∷ batch) {r} (Memᴰ.head h) = rw h (rw (==_refl (key s)) refl)
  has-Memᴰ (s ∷ batch) {r} (Memᴰ.tail m) = rw (has-Memᴰ batch m) (or_true (key r == key s))

  -- Where identifiers are distinct, they name no other rows.
  pub has-row :
      (p : A → Bool) (rows batch : List A)
      → Distinct key rows
      → All (λ e. Memᴰ e rows × (p e ≡ true)) batch
      → {r : A} → Memᴰ r rows
      → has (map key batch) (key r) ≡ true
      → p r ≡ true
  has-row p rows batch distinct chosen {r} there h =
      has-All (λ id. (s : A) → Memᴰ s rows → key s ≡ id → p s ≡ true) (map key batch) (key r) h
        (All-map (λ id. (s : A) → Memᴰ s rows → key s ≡ id → p s ≡ true) key batch
          (Unique.All-map (λ e. (s : A) → Memᴰ s rows → key s ≡ key e → p s ≡ true)
            (λ e (m, c) s n same. ap p (Distinct-same key rows distinct n m same) ∙ c) batch
            chosen))
        r there refl

  one_key : (k : ℕ) (rows : List A) → Distinct key rows → count_where (λ r. key r == k) rows ≤ 1
  unfolding count_where
  one_key k [] d = omega arith
  one_key k (r ∷ rows) d = elim (Bool-cases (key r == k)) [
    | inl c ↦ rw c (rw (none_else k r rows c d.0) (omega arith))
    | inr c ↦ rw c (omega (arith, one_key k rows d.1))
  ]

  -- The statement meets at most as many rows as it names.
  pub count_where-has :
      (ids : List ℕ) (rows : List A)
      → Distinct key rows
      → count_where (λ r. has ids (key r)) rows ≤ length ids
  count_where-has [] rows d = omega (arith, count_none rows)
  count_where-has (i ∷ ids) rows d = omega (
    arith,
    one_key i rows d,
    count_where-has ids rows d,
    count_or (λ r. key r == i) (λ r. has ids (key r)) rows,
  )

  -- The statement meets every row of the batch.
  pub count_where-batch :
      (n : ℕ) (f : A → ℕ) (p : A → Bool) (rows : List A)
      → length (batch n f p rows) ≤ count_where (λ r. has (map key (batch n f p rows)) (key r)) rows
  unfolding batch
  count_where-batch n f p rows =
      let chosen = take n (order_asc f (select p rows)) in
      let q : A → Bool = λ r. has (map key chosen) (key r) in
      omega (
        arith,
        count_every q chosen (All-mem (λ r. q r ≡ true) chosen λ r m. has-Memᴰ chosen m),
        count_take q n (order_asc f (select p rows)),
        count_order q f (select p rows),
        count_select q p rows,
      )

-- ===== src/Worker/Retention/Purge.antt =====
-- purgeInBatches: it ends, deletes only what its condition selects, and all of it if it deletes less
-- than it may.
use bf_techops.Prelude.{
  ℕ, zero, suc, ◌+◌, ◌*◌, ◌≤◌, ◌<◌, ◌≡◌, refl, sym, ap, ◌∙◌, Bool, true, false, ◌⊎◌, ◌==◌, List, [],
  ◌∷◌, map, inl, inr, ltb, length, length-take-le, All, Bool-cases, arith,
}
use bf_techops.Prelude.Table.{any_row, select, order_asc, delete_where, count_where}
use bf_techops.Prelude.Table.Unique
use bf_techops.Prelude.Table.Unique.{Distinct, absurd_bool}
use bf_techops.Prelude.Table.Sorted.{
  take-All, select-Memᴰ, order_asc-All, order_asc-Memᴰ, order_asc-Ascending, take-Ascending,
  All-Memᴰ,
}
use mathlib.Core.List.{Memᴰ}
use bf_techops.MerchantScope.Lists.{select-All}
use bf_techops.Worker.Batch.{batch, has-row, has-Memᴰ, count_where-has, count_where-batch}
use bf_techops.Worker.Retention.{purged, affected, purge, purge_loop, purge_in_batches}

length-map {ℓ κ} :
    {A : Type ℓ} {B : Type κ} (f : A → B) (rows : List A) → length (map f rows) ≡ length rows
length-map f [] = refl
length-map f (r ∷ rows) = ap suc (length-map f rows)

module _ {ℓ} {A : Type ℓ} where
  length-delete_where :
      (q : A → Bool) (rows : List A)
      → count_where q rows + length (delete_where q rows) ≡ length rows
  unfolding count_where delete_where
  length-delete_where q [] = refl
  length-delete_where q (r ∷ rows) = elim (Bool-cases (q r)) [
    | inl c ↦ rw c (omega (arith, length-delete_where q rows))
    | inr c ↦ rw c (omega (arith, length-delete_where q rows))
  ]

  delete_where-Memᴰ :
      (q : A → Bool) (rows : List A) {r : A}
      → Memᴰ r rows
      → q r ≡ false
      → Memᴰ r (delete_where q rows)
  unfolding delete_where
  delete_where-Memᴰ q [] m h = elim m [ ]
  delete_where-Memᴰ q (s ∷ rows) (Memᴰ.head e) h = rw (ap q (sym e) ∙ h) (Memᴰ.head e)
  delete_where-Memᴰ q (s ∷ rows) (Memᴰ.tail m) h = elim (Bool-cases (q s)) [
    | inl c ↦ rw c (delete_where-Memᴰ q rows m h)
    | inr c ↦ rw c (Memᴰ.tail (delete_where-Memᴰ q rows m h))
  ]

  delete_where-All {κ} :
      (P : A → Type κ) (q : A → Bool) (rows : List A)
      → ((r : A) → Memᴰ r rows → q r ≡ false → P r)
      → All P (delete_where q rows)
  unfolding delete_where
  delete_where-All P q [] k = tt
  delete_where-All P q (r ∷ rows) k =
      let rest = delete_where-All P q rows (λ s m. k s (Memᴰ.tail m)) in
      elim (Bool-cases (q r)) [ inl c ↦ rw c rest | inr c ↦ rw c (k r (Memᴰ.head refl) c, rest) ]

  All-there : (rows : List A) → All (λ r. Memᴰ r rows) rows
  All-there [] = tt
  All-there (r ∷ rows) = (
    Memᴰ.head refl,
    Unique.All-map (λ s. Memᴰ s (r ∷ rows)) (λ s m. Memᴰ.tail m) rows (All-there rows),
  )

  any_row-delete_where :
      (p q : A → Bool) (rows : List A)
      → any_row p rows ≡ false
      → any_row p (delete_where q rows) ≡ false
  unfolding any_row delete_where
  any_row-delete_where p q [] h = refl
  any_row-delete_where p q (r ∷ rows) h = elim (Bool-cases (q r)) [
    | inl c ↦ rw c (any_row-delete_where p q rows (ground arith))
    | inr c ↦ rw c (ground (arith, any_row-delete_where p q rows))
  ]

  Distinct-delete_where :
      (key : A → ℕ) (q : A → Bool) (rows : List A)
      → Distinct key rows
      → Distinct key (delete_where q rows)
  unfolding delete_where
  Distinct-delete_where key q [] d = tt
  Distinct-delete_where key q (r ∷ rows) d = elim (Bool-cases (q r)) [
    | inl c ↦ rw c (Distinct-delete_where key q rows d.1)
    | inr c ↦ rw c (
      any_row-delete_where (λ s. key s == key r) q rows d.0,
      Distinct-delete_where key q rows d.1,
    )
  ]

module _ {ℓ} {A : Type ℓ} (key order : A → ℕ) (p : A → Bool) where
  chosen : (rows : List A) → All (λ e. Memᴰ e rows × (p e ≡ true)) (batch 1000 order p rows)
  unfolding batch
  chosen rows =
      take-All (λ e. Memᴰ e rows × (p e ≡ true)) 1000 _
        (order_asc-All order _ _
          (select-All (λ e. Memᴰ e rows × (p e ≡ true)) p rows λ r there h. (there, h)))

  -- A row that the condition does not select stays.
  purged-other :
      (rows : List A)
      → Distinct key rows
      → {r : A} → Memᴰ r rows
      → p r ≡ false
      → purged key order p rows r ≡ false
  purged-other rows d {r} m h = elim (Bool-cases (purged key order p rows r)) [
    | inl c ↦
        absurd_bool (sym (has-row key p rows (batch 1000 order p rows) d (chosen rows) m c) ∙ h)
    | inr c ↦ c
  ]

  affected-le : (rows : List A) → Distinct key rows → affected key order p rows ≤ 1000
  unfolding affected batch
  affected-le rows d = omega (
    arith,
    count_where-has key (map key (batch 1000 order p rows)) rows d,
    length-map key (batch 1000 order p rows),
    length-take-le 1000 (order_asc order (select p rows)),
  )

  oldest :
      (rows : List A) {r : A}
      → Memᴰ r rows
      → p r ≡ true
      → Memᴰ r (batch 1000 order p rows)
        ⊎ ((length (batch 1000 order p rows) ≡ 1000)
            × All (λ s. order s ≤ order r) (batch 1000 order p rows))
  unfolding batch
  oldest rows m c =
      take-Ascending order 1000 _ (order_asc-Ascending order _)
        (order_asc-Memᴰ order _ (select-Memᴰ p rows m c))

  full_batch :
      (rows : List A)
      → affected key order p rows < 1000
      → length (batch 1000 order p rows) ≡ 1000
      → ⊥
  unfolding affected
  full_batch rows few full = omega (arith, few, full, count_where-batch key 1000 order p rows)

  -- After a batch that is not full, nothing is left that the condition selects.
  nothing_left :
      (rows : List A)
      → affected key order p rows < 1000
      → All (λ r. p r ≡ false) (purge key order p rows)
  unfolding purge
  nothing_left rows few =
      delete_where-All (λ r. p r ≡ false) (purged key order p rows) rows
        λ r m kept. elim (Bool-cases (p r)) [
          | inr c ↦ c
          | inl c ↦ elim (oldest rows m c) [
            | inl taken ↦ absurd_bool (sym (has-Memᴰ key (batch 1000 order p rows) taken) ∙ kept)
            | inr (full, earlier) ↦ absurd (full_batch rows few full)
          ]
        ]

  -- What a purge of at most `n` batches leaves, after `before` rows: how many it deleted, and the
  -- rows that stay.
  pub record IsPurge (n before : ℕ) (rows : List A) (result : ℕ × List A) : Type ℓ where
    pub bounded : result.0 ≤ before + n * 1000
    pub counted : result.0 + length result.1 ≡ before + length rows
    pub keeps : {r : A} → Memᴰ r rows → p r ≡ false → Memᴰ r result.1
    pub only : All (λ r. Memᴰ r rows) result.1
    pub complete : result.0 < before + n * 1000 → All (λ r. p r ≡ false) result.1

  purge-only : (rows : List A) → All (λ r. Memᴰ r rows) (purge key order p rows)
  unfolding purge
  purge-only rows = delete_where-All (λ r. Memᴰ r rows) (purged key order p rows) rows λ r m _. m

  purge-keeps :
      (rows : List A)
      → Distinct key rows
      → {r : A} → Memᴰ r rows
      → p r ≡ false
      → Memᴰ r (purge key order p rows)
  unfolding purge
  purge-keeps rows d m h =
      delete_where-Memᴰ (purged key order p rows) rows m (purged-other rows d m h)

  purge-counted :
      (rows : List A) → affected key order p rows + length (purge key order p rows) ≡ length rows
  unfolding affected purge
  purge-counted rows = length-delete_where (purged key order p rows) rows

  purge-Distinct : (rows : List A) → Distinct key rows → Distinct key (purge key order p rows)
  unfolding purge
  purge-Distinct rows d = Distinct-delete_where key (purged key order p rows) rows d

  purge_loop-IsPurge :
      (n before : ℕ) (rows : List A)
      → Distinct key rows
      → IsPurge n before rows (purge_loop key order p n before rows)
  unfolding purge_loop
  purge_loop-IsPurge zero before rows d = record {
    bounded = omega arith;
    counted = refl;
    keeps = λ m h. m;
    only = All-there rows;
    complete = λ less. absurd (omega (arith, less));
  }
  purge_loop-IsPurge (suc n) before rows d =
      elim (Bool-cases (ltb (affected key order p rows) 1000)) [
        | inl c ↦
            let few : affected key order p rows < 1000 = ground arith in
            rw c record {
              bounded = omega (arith, few);
              counted = omega (arith, purge-counted rows);
              keeps = purge-keeps rows d;
              only = purge-only rows;
              complete = λ less. nothing_left rows few;
            }
        | inr c ↦
            let full : 1000 ≤ affected key order p rows = ground arith in
            let rest =
              purge_loop-IsPurge n (before + affected key order p rows) (purge key order p rows)
                (purge-Distinct rows d) in
            rw c record {
              bounded = omega (arith, rest.bounded, affected-le rows d);
              counted = omega (arith, rest.counted, purge-counted rows);
              keeps = λ m h. rest.keeps (purge-keeps rows d m h) h;
              only =
                  Unique.All-map (λ r. Memᴰ r rows)
                    (λ r m.
                      All-Memᴰ (λ s. Memᴰ s rows) (purge key order p rows) (purge-only rows) m)
                    _ rest.only;
              complete = λ less. rest.complete (omega (arith, less, full));
            }
      ]

  -- On a table with distinct identifiers, a purge ends with at most 20 000 deleted rows, which is the
  -- number that it returns; it adds no row and deletes none that its condition does not select; and
  -- if it deletes fewer than 20 000 rows, no row is left that the condition selects.
  pub purge_in_batches-IsPurge :
      (rows : List A) → Distinct key rows → IsPurge 20 0 rows (purge_in_batches key order p rows)
  unfolding purge_in_batches
  purge_in_batches-IsPurge rows d = purge_loop-IsPurge 20 0 rows d

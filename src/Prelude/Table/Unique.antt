-- ===== src/Prelude/Table/Unique.antt =====
-- Rows that a unique column tells apart.
use Prim.Native.Nat.{ℕ}
use mathlib.Core.Path.{◌≡◌, refl, ap, sym, ◌∙◌}
use mathlib.Core.Bool.{Bool, true, false, ◌||◌}
use mathlib.Core.Logic.{inl, inr}
use mathlib.Core.Option.{Option, none, some}
use mathlib.Core.List.{List, [], ◌∷◌}
use native.Mathlib.Omega.{arith}
use bf_techops.Prelude.Tests.{◌==◌, ==_refl, ==_iff, if◌then◌else◌, Bool-cases}
use bf_techops.Prelude.Lists.{All}
use bf_techops.Prelude.Table.{find_one, any_row, update_where}
use bf_techops.Prelude.Table.Laws.{updated}

abbrev or_else {ℓ} : {A : Type ℓ} → A → Option A → A
or_else a none = a
or_else a (some b) = b

module _ {ℓ κ} {A : Type ℓ} {C : Type κ} where
  on_choice :
      (c : Bool) (r : A) (o : Option A) {x : A}
      → (if c then some r else o) ≡ some x
      → (c ≡ true → r ≡ x → C)
      → (c ≡ false → o ≡ some x → C)
      → C
  on_choice true r o h here later = here refl (ap (or_else r) h)
  on_choice false r o h here later = later refl h

  -- The row that was found is the first one, or is found in the others.
  pub on_found :
      (p : A → Bool) (r : A) (rows : List A) {x : A}
      → find_one p (r ∷ rows) ≡ some x
      → (p r ≡ true → r ≡ x → C)
      → (p r ≡ false → find_one p rows ≡ some x → C)
      → C
  unfolding find_one
  on_found p r rows h here later = on_choice (p r) r (find_one p rows) h here later

module _ {ℓ} {A : Type ℓ} where
  pub any_row-left :
      (p q : A → Bool) (rows : List A)
      → any_row (λ r. p r || q r) rows ≡ false
      → any_row p rows ≡ false
  unfolding any_row
  any_row-left p q [] h = refl
  any_row-left p q (r ∷ rows) h = ground (arith, any_row-left p q rows)

  pub find_one-holds :
      (p : A → Bool) (rows : List A) {x : A} → find_one p rows ≡ some x → p x ≡ true
  unfolding find_one
  find_one-holds p [] h = cc
  find_one-holds p (r ∷ rows) {x} h =
      on_found p r rows h (λ e same. ap p (sym same) ∙ e) λ _ h'. find_one-holds p rows h'

  pub All-update_where {κ μ ν} :
      {P : A → Type κ} {Q : A → Type μ} (R : A → Type ν) (q : A → Bool) (f : A → A)
      → ((r : A) → P r → Q r → R (updated q f r))
      → (rows : List A) → All P rows
      → All Q rows
      → All R (update_where q f rows)
  unfolding update_where
  All-update_where R q f k [] a b = tt
  All-update_where R q f k (r ∷ rows) a b = (k r a.0 b.0, All-update_where R q f k rows a.1 b.1)

  pub All-map {κ μ} :
      {P : A → Type κ} (Q : A → Type μ)
      → ((r : A) → P r → Q r)
      → (rows : List A) → All P rows
      → All Q rows
  All-map Q k [] a = tt
  All-map Q k (r ∷ rows) a = (k r a.0, All-map Q k rows a.1)

pub or_true : (b : Bool) → (b || true) ≡ true
or_true true = refl
or_true false = refl

pub absurd_bool {ℓ} : {C : Type ℓ} → true ≡ false → C
absurd_bool h = cc

module _ {ℓ} {A : Type ℓ} (key : A → ℕ) where
  abbrev pub Distinct : List A → Type 0
  Distinct [] = Unit
  Distinct (r ∷ rows) = (any_row (λ s. key s == key r) rows ≡ false) × Distinct rows

  key_updated :
      (q : A → Bool) (f : A → A)
      → ((r : A) → key (f r) ≡ key r)
      → (r : A) → key (updated q f r) ≡ key r
  key_updated q f keeps r = elim (Bool-cases (q r)) [ inl e ↦ rw e (keeps r) | inr e ↦ rw e refl ]

  pub any_row-key :
      (k : ℕ) (q : A → Bool) (f : A → A)
      → ((r : A) → key (f r) ≡ key r)
      → (rows : List A)
      → any_row (λ s. key s == k) (update_where q f rows) ≡ any_row (λ s. key s == k) rows
  unfolding any_row update_where
  any_row-key k q f keeps [] = refl
  any_row-key k q f keeps (r ∷ rows) = elim (Bool-cases (q r)) [
    | inl e ↦ rw e (rw (keeps r) (rw (any_row-key k q f keeps rows) refl))
    | inr e ↦ rw e (rw (any_row-key k q f keeps rows) refl)
  ]

  pub Distinct-update_where :
      (q : A → Bool) (f : A → A)
      → ((r : A) → key (f r) ≡ key r)
      → (rows : List A) → Distinct rows
      → Distinct (update_where q f rows)
  unfolding update_where
  Distinct-update_where q f keeps [] d = tt
  Distinct-update_where q f keeps (r ∷ rows) d = (
    any_row-key _ q f keeps rows ∙ rw (key_updated q f keeps r) d.0,
    Distinct-update_where q f keeps rows d.1,
  )

  pub All-fresh :
      (k : ℕ) (rows : List A)
      → any_row (λ s. key s == k) rows ≡ false
      → All (λ s. (key s == k) ≡ false) rows
  unfolding any_row
  All-fresh k [] h = tt
  All-fresh k (r ∷ rows) h = (ground arith, All-fresh k rows (ground arith))

  pub found_key :
      (p : A → Bool) (rows : List A) {x : A}
      → find_one p rows ≡ some x
      → any_row (λ s. key s == key x) rows ≡ true
  unfolding find_one any_row
  found_key p [] h = cc
  found_key p (r ∷ rows) {x} h =
      on_found p r rows h (λ _ same. rw same (rw (==_refl (key x)) refl))
        λ _ h'. rw (found_key p rows h') (or_true (key r == key x))

  any_key :
      (rows : List A) (r x : A)
      → (key r == key x) ≡ true
      → any_row (λ s. key s == key x) rows ≡ any_row (λ s. key s == key r) rows
  any_key rows r x h =
      ap (λ (k : ℕ). any_row (λ s. key s == k) rows) (sym ((==_iff (key r) (key x)).0 h))

  -- In distinct rows, only the row that was found has its key.
  pub found_alone :
      (p : A → Bool) (rows : List A) {x : A}
      → Distinct rows
      → find_one p rows ≡ some x
      → All (λ r. (key r == key x) ≡ true → r ≡ x) rows
  unfolding find_one
  found_alone p [] d h = tt
  found_alone p (r ∷ rows) {x} d h =
      on_found p r rows h
        (λ _ same. (
          λ _. same,
          All-map (λ s. (key s == key x) ≡ true → s ≡ x)
              (λ s other. λ same_key.
                absurd_bool (sym same_key ∙ ap (λ (y : A). key s == key y) (sym same) ∙ other))
              rows (All-fresh (key r) rows d.0),
        ))
        λ _ h'. (
          (λ same_key. absurd_bool (sym (found_key p rows h') ∙ any_key rows r x same_key ∙ d.0)),
          found_alone p rows d.1 h',
        )

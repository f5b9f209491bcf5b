-- ===== src/Domain/Money/Laws.antt =====
-- Laws of `calculateInvoice` (packages/domain/src/index.js).
use bf_techops.Prelude.{
  ◌∙◌, sym, subst, ℕ, ◌+◌, ◌*◌, ◌/◌, ◌^◌, ◌≤◌, ◌<◌, ◌≡◌, refl, List, [], ◌∷◌, arith, sum_of, ◌≢◌,
  false,
}
use bf_techops.Js.{Text, trim, max_safe_integer, nat, JsNumber}
use bf_techops.Js.Double.{to_double}
use bf_techops.Failure.{ok, on_bind, on_reject, ok-injective}
use bf_techops.Domain.Money.{
  InvoiceLineInput, InvoiceInput, CalculatedInvoiceLine, CalculatedInvoice, require_integer,
  normalize_item, normalize_items, tax_of, totals, calculate_invoice, is_empty,
}
use bf_techops.Domain.Money.Exact.{tax_of-exact, to_double-safe}

-- A calculated line against the item that it was made from.
pub record Matches (item : InvoiceLineInput) (line : CalculatedInvoiceLine) : Type 0 where
  pub described : line.description ≡ trim item.description
  pub not_blank : line.description ≢ []
  pub counted : item.quantity ≡ nat line.quantity
  pub at_least_one : 1 ≤ line.quantity
  pub priced : item.unit_price_minor ≡ nat line.unit_price_minor
  pub multiplied : line.line_total_minor ≡ line.quantity * line.unit_price_minor
  pub safe : line.line_total_minor ≤ max_safe_integer

-- One line for each item, in order.
abbrev pub MatchAll : List InvoiceLineInput → List CalculatedInvoiceLine → Type 0
MatchAll [] [] = Unit
MatchAll [] (l ∷ lines) = ⊥
MatchAll (i ∷ items) [] = ⊥
MatchAll (i ∷ items) (l ∷ lines) = Matches i l × MatchAll items lines

pub nat-injective : {m n : ℕ} → nat m ≡ nat n → m ≡ n
nat-injective h = cc

pub require_integer-ok :
    (value : JsNumber) (minimum : ℕ) {n : ℕ}
    → require_integer value minimum ≡ ok n
    → (value ≡ nat n) × (minimum ≤ n) × (n ≤ max_safe_integer)
unfolding require_integer
require_integer-ok (nat m) minimum h = ground arith
require_integer-ok _ minimum h = cc

empty_is_empty : (t : Text) → is_empty t ≡ false → t ≢ []
empty_is_empty [] h = cc
empty_is_empty (c ∷ t) h = λ e. cc

pub normalize_item-ok :
    (item : InvoiceLineInput) {line : CalculatedInvoiceLine}
    → normalize_item item ≡ ok line
    → Matches item line
unfolding normalize_item
normalize_item-ok item h = on_reject _ _ _ h λ shown h₁.
    on_bind (require_integer item.quantity 1) _ h₁ λ q e₂ h₂.
      on_bind (require_integer item.unit_price_minor 0) _ h₂ λ p e₃ h₃.
        on_bind (require_integer (nat (q * p)) 0) _ h₃ λ t e₄ h₄.
          let quantity = require_integer-ok item.quantity 1 e₂ in
          let price = require_integer-ok item.unit_price_minor 0 e₃ in
          let product = require_integer-ok (nat (q * p)) 0 e₄ in
          subst (Matches item) (ok-injective h₄) (record {
            described = refl;
            not_blank = empty_is_empty _ shown;
            counted = quantity.0;
            at_least_one = quantity.1;
            priced = price.0;
            multiplied = sym (nat-injective product.0);
            safe = product.2;
          })

pub normalize_items-ok :
    (items : List InvoiceLineInput) {lines : List CalculatedInvoiceLine}
    → normalize_items items ≡ ok lines
    → MatchAll items lines
unfolding normalize_items
normalize_items-ok [] h = subst (MatchAll []) (ok-injective h) tt
normalize_items-ok (i ∷ items) h = on_bind (normalize_item i) _ h λ l e₁ h₁.
    on_bind (normalize_items items) _ h₁ λ lines e₂ h₂.
      subst (MatchAll (i ∷ items)) (ok-injective h₂)
        (normalize_item-ok i e₁, normalize_items-ok items e₂)

-- What an accepted input and its invoice have to do with each other.
pub record IsInvoiceOf (input : InvoiceInput) (invoice : CalculatedInvoice) : Type 0 where
  pub some_item : input.items ≢ []
  pub matched : MatchAll input.items invoice.items
  pub subtotal : invoice.subtotal_minor ≡ sum_of (λ line. line.line_total_minor) invoice.items
  pub subtotal_safe : invoice.subtotal_minor ≤ max_safe_integer
  pub discounted : input.discount_minor ≡ nat invoice.discount_minor
  pub discount_covered : invoice.discount_minor ≤ invoice.subtotal_minor
  pub taxable : invoice.taxable_minor + invoice.discount_minor ≡ invoice.subtotal_minor
  pub rated : input.tax_rate_basis_points ≡ nat invoice.tax_rate_basis_points
  pub rate_limited : invoice.tax_rate_basis_points ≤ 10_000
  pub taxed : invoice.tax_minor ≡ tax_of invoice.taxable_minor invoice.tax_rate_basis_points
  pub totalled : invoice.total_minor ≡ to_double (invoice.taxable_minor + invoice.tax_minor)

items_nonempty : (items : List InvoiceLineInput) → is_empty items ≡ false → items ≢ []
items_nonempty [] h = cc
items_nonempty (i ∷ items) h = λ e. cc

-- An invoice that `calculateInvoice` returns has one line for each item of the input, in order, with
-- the item's trimmed description, its quantity of at least 1 and the product as the line's total;
-- the subtotal is the sum of the lines, the discount is the input's and is at most the subtotal, the
-- taxable amount is what is left of it, and the rate is the input's and at most 100 %.
pub calculate_invoice-IsInvoiceOf :
    (input : InvoiceInput) (invoice : CalculatedInvoice)
    → calculate_invoice input ≡ ok invoice
    → IsInvoiceOf input invoice
unfolding calculate_invoice totals
calculate_invoice-IsInvoiceOf input invoice h = on_reject _ _ _ h λ shown h₁.
    on_bind (require_integer input.discount_minor 0) _ h₁ λ d e₂ h₂.
      on_bind (require_integer input.tax_rate_basis_points 0) _ h₂ λ r e₃ h₃.
        on_reject _ _ _ h₃ λ rate h₄. on_bind (normalize_items input.items) _ h₄ λ lines e₅ h₅.
          on_bind (require_integer (nat (sum_of (λ l. l.line_total_minor) lines)) 0) _ h₅ λ s e₆ h₆.
            on_reject _ _ _ h₆ λ cover h₇.
              let sum = require_integer-ok (nat (sum_of (λ l. l.line_total_minor) lines)) 0 e₆ in
              let covered : d ≤ s = ground arith in
              subst (IsInvoiceOf input) {x = totals lines s d r} (ok-injective h₇) (record {
                some_item = items_nonempty input.items shown;
                matched = normalize_items-ok input.items e₅;
                subtotal = sym (nat-injective sum.0);
                subtotal_safe = sum.2;
                discounted = (require_integer-ok input.discount_minor 0 e₂).0;
                discount_covered = covered;
                taxable = omega arith;
                rated = (require_integer-ok input.tax_rate_basis_points 0 e₃).0;
                rate_limited = ground arith;
                taxed = refl;
                totalled = refl;
              })

-- While the subtotal is below 2^39 (the columns of the database hold less than 2^32), the tax is the
-- exact share of the taxable amount, in minor units and a half rounded up; the total is the taxable
-- amount and the tax, and the tax is at most the taxable amount.
pub calculate_invoice-exact :
    (input : InvoiceInput) (invoice : CalculatedInvoice)
    → calculate_invoice input ≡ ok invoice
    → invoice.subtotal_minor < 2 ^ 39
    → (invoice.tax_minor
        ≡ (2 * (invoice.taxable_minor * invoice.tax_rate_basis_points) + 10_000) / 20_000)
      × (invoice.total_minor ≡ invoice.taxable_minor + invoice.tax_minor)
      × (invoice.tax_minor ≤ invoice.taxable_minor)
calculate_invoice-exact input invoice h small =
    let i = calculate_invoice-IsInvoiceOf input invoice h in
    let tax = tax_of-exact invoice.taxable_minor invoice.tax_rate_basis_points in
    let exact = tax (omega arith) i.rate_limited in
    (
      i.taxed ∙ exact.0,
      i.totalled
          ∙ to_double-safe (invoice.taxable_minor + invoice.tax_minor) (rw i.taxed (omega arith)),
      rw i.taxed exact.1,
    )

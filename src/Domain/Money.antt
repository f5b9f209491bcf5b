-- ===== src/Domain/Money.antt =====
-- `calculateInvoice` of packages/domain/src/index.js. A product or a sum of doubles that are not
-- negative and safe is exact if it is safe, and not safe otherwise, so these are computed exactly
-- before `require_integer`; the tax and the total are computed in doubles (Js.Double).
pub mod Exact
pub mod Laws
use bf_techops.Prelude.{
  ℕ, ◌+◌, ◌-◌, ◌*◌, Bool, true, false, ◌&&◌, List, [], ◌∷◌, ltb, leb, if◌then◌else◌, sum_of,
}
use bf_techops.Js.{Text, trim, max_safe_integer, JsNumber, nat, neg, other}
use bf_techops.Js.Double.{to_double, math_round_div}
use bf_techops.Failure.{Result, ok, err, type_error, range_error, reject_if, ◌>>=◌, ◌>>◌}

pub record InvoiceLineInput : Type 0 where
  pub description : Text
  pub quantity : JsNumber
  pub unit_price_minor : JsNumber

pub record InvoiceInput : Type 0 where
  pub items : List InvoiceLineInput
  pub discount_minor : JsNumber
  pub tax_rate_basis_points : JsNumber

pub record CalculatedInvoiceLine : Type 0 where
  pub description : Text
  pub quantity : ℕ
  pub unit_price_minor : ℕ
  pub line_total_minor : ℕ

pub record CalculatedInvoice : Type 0 where
  pub items : List CalculatedInvoiceLine
  pub subtotal_minor : ℕ
  pub discount_minor : ℕ
  pub taxable_minor : ℕ
  pub tax_rate_basis_points : ℕ
  pub tax_minor : ℕ
  pub total_minor : ℕ

-- The integer that `value` is, if it is safe and at least `minimum`, which is never negative.
unfoldable pub require_integer : JsNumber → ℕ → Result ℕ
require_integer (nat n) minimum =
    if leb n max_safe_integer && leb minimum n
    then ok n
    else err (type_error "must be a safe integer")
require_integer (neg n) minimum = err (type_error "must be a safe integer")
require_integer other minimum = err (type_error "must be a safe integer")

abbrev pub is_empty {ℓ} : {A : Type ℓ} → List A → Bool
is_empty [] = true
is_empty (x ∷ xs) = false

unfoldable pub normalize_item : InvoiceLineInput → Result CalculatedInvoiceLine
normalize_item item = do
  let description = trim item.description
  reject_if (is_empty description) (type_error "description is required")
  quantity ← require_integer item.quantity 1
  unit_price_minor ← require_integer item.unit_price_minor 0
  line_total_minor ← require_integer (nat (quantity * unit_price_minor)) 0
  ok (record {
    description = description;
    quantity = quantity;
    unit_price_minor = unit_price_minor;
    line_total_minor = line_total_minor;
  })

-- `items.map(…)`, which stops at the first item that throws
unfoldable pub normalize_items : List InvoiceLineInput → Result (List CalculatedInvoiceLine)
normalize_items [] = ok []
normalize_items (item ∷ items) = do
  line ← normalize_item item
  lines ← normalize_items items
  ok (line ∷ lines)

-- `Math.round((taxableMinor * taxRateBasisPoints) / 10_000)`
unfoldable pub tax_of : ℕ → ℕ → ℕ
tax_of taxable rate = math_round_div (to_double (taxable * rate)) 10_000

-- The invoice, once the input is checked.
unfoldable pub totals : List CalculatedInvoiceLine → ℕ → ℕ → ℕ → CalculatedInvoice
totals lines subtotal discount rate =
    let taxable = subtotal - discount in
    let tax = tax_of taxable rate in
    record {
      items = lines;
      subtotal_minor = subtotal;
      discount_minor = discount;
      taxable_minor = taxable;
      tax_rate_basis_points = rate;
      tax_minor = tax;
      total_minor = to_double (taxable + tax);
    }

unfoldable pub calculate_invoice : InvoiceInput → Result CalculatedInvoice
calculate_invoice input = do
  reject_if (is_empty input.items) (type_error "items must contain at least one line item")
  discount ← require_integer input.discount_minor 0
  rate ← require_integer input.tax_rate_basis_points 0
  reject_if (ltb 10_000 rate) (range_error "taxRateBasisPoints cannot exceed 10000")
  lines ← normalize_items input.items
  subtotal ← require_integer (nat (sum_of (λ line. line.line_total_minor) lines)) 0
  reject_if (ltb subtotal discount) (range_error "discountMinor cannot exceed subtotalMinor")
  ok (totals lines subtotal discount rate)

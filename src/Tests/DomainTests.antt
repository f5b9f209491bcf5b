-- ===== src/Tests/DomainTests.antt =====
-- The money of an invoice, its status changes and the idempotency key.
use bf_techops.Prelude.{◌+◌, ◌*◌, ◌/◌, ◌≤◌, ◌≡◌, ◌↔◌, refl, true, some, [], ◌∷◌, every, arith}
use bf_techops.Failure.{ok, reject_if, ◌>>=◌}
use bf_techops.Js.{codes, nat, trim, trim_start, trim_end, is_space}
use bf_techops.Js.Double.{to_double, math_round_div, shift_up, shift_down, round_half_even}
use bf_techops.Wire.{issued, partially_paid}
use bf_techops.Domain.Money.{
  InvoiceInput, CalculatedInvoice, calculate_invoice, require_integer, normalize_item,
  normalize_items, tax_of, totals,
}
use bf_techops.Domain.Money.Laws.{
  IsInvoiceOf, calculate_invoice-IsInvoiceOf, calculate_invoice-exact,
}
use bf_techops.Domain.Transition.{
  Step, assert_invoice_transition, assert_invoice_transition-iff-Step,
}
use bf_techops.Domain.IdempotencyKey.{
  is_key_unit, matches_key, normalize_idempotency_key, normalize_idempotency_key-normal,
}

-- Two lines of 333 and 1000 minor units, 33 off, at 18 %.
abbrev input : InvoiceInput
input = record {
  items =
      record { description = codes " a "; quantity = nat 3; unit_price_minor = nat 111 }
      ∷ record { description = codes "b"; quantity = nat 1; unit_price_minor = nat 1000 }
      ∷ [];
  discount_minor = nat 33;
  tax_rate_basis_points = nat 1800;
}

abbrev invoice : CalculatedInvoice
invoice = record {
  items =
      record {
        description = codes "a";
        quantity = 3;
        unit_price_minor = 111;
        line_total_minor = 333;
      }
      ∷ record {
        description = codes "b";
        quantity = 1;
        unit_price_minor = 1000;
        line_total_minor = 1000;
      }
      ∷ [];
  subtotal_minor = 1333;
  discount_minor = 33;
  taxable_minor = 1300;
  tax_rate_basis_points = 1800;
  tax_minor = 234;
  total_minor = 1534;
}

calculates : calculate_invoice input ≡ ok invoice
unfolding calculate_invoice require_integer normalize_item normalize_items tax_of totals to_double
    math_round_div shift_up shift_down round_half_even trim trim_start trim_end is_space reject_if
    ◌>>=◌
calculates = refl

calculate_invoice-IsInvoiceOf_example : IsInvoiceOf input invoice
calculate_invoice-IsInvoiceOf_example = calculate_invoice-IsInvoiceOf input invoice calculates

calculate_invoice-exact_example :
    (234 ≡ (2 * (1300 * 1800) + 10_000) / 20_000) × (1534 ≡ 1300 + 234) × (234 ≤ 1300)
calculate_invoice-exact_example = calculate_invoice-exact input invoice calculates (omega arith)

assert_invoice_transition-iff-Step_example :
    (assert_invoice_transition issued partially_paid ≡ ok tt) ↔ Step issued partially_paid
assert_invoice_transition-iff-Step_example =
    assert_invoice_transition-iff-Step issued partially_paid

normalizes :
    normalize_idempotency_key (some (codes " order-2024:0000001 "))
    ≡ ok (codes "order-2024:0000001")
unfolding normalize_idempotency_key matches_key is_key_unit trim trim_start trim_end is_space
normalizes = refl

normalize_idempotency_key-normal_example :
    (codes "order-2024:0000001" ≡ trim (codes " order-2024:0000001 "))
    × (every is_key_unit (codes "order-2024:0000001") ≡ true)
    × (16 ≤ 18)
    × (18 ≤ 128)
    × (normalize_idempotency_key (some (codes "order-2024:0000001"))
        ≡ ok (codes "order-2024:0000001"))
normalize_idempotency_key-normal_example =
    normalize_idempotency_key-normal (some (codes " order-2024:0000001 "))
      (codes "order-2024:0000001") normalizes

-- ===== src/Domain/Transition.antt =====
-- The status changes of an invoice: `invoiceTransitions` and `assertInvoiceTransition` of
-- packages/domain/src/index.js.
use bf_techops.Prelude.{ℕ, ◌<◌, ◌≡◌, ◌↔◌, refl, Bool, not, List, [], ◌∷◌, arith, any, ◌==◌}
use bf_techops.Failure.{Result, ok, invalid_invoice_transition, coded, reject_if}
use bf_techops.Wire.{
  InvoiceStatus, draft, issued, partially_paid, paid, partially_refunded, refunded, cancelled,
}

-- `===` on two statuses, which are texts in the source
abbrev pub number_of : InvoiceStatus → ℕ
number_of draft = 0
number_of issued = 1
number_of partially_paid = 2
number_of paid = 3
number_of partially_refunded = 4
number_of refunded = 5
number_of cancelled = 6

abbrev pub status_eq : InvoiceStatus → InvoiceStatus → Bool
status_eq a b = number_of a == number_of b

abbrev pub includes : List InvoiceStatus → InvoiceStatus → Bool
includes statuses s = any (status_eq s) statuses

abbrev pub invoice_transitions : InvoiceStatus → List InvoiceStatus
invoice_transitions draft = issued ∷ cancelled ∷ []
invoice_transitions issued = partially_paid ∷ paid ∷ cancelled ∷ []
invoice_transitions partially_paid = paid ∷ []
invoice_transitions paid = partially_refunded ∷ refunded ∷ []
invoice_transitions partially_refunded = refunded ∷ []
invoice_transitions refunded = []
invoice_transitions cancelled = []

unfoldable pub assert_invoice_transition : InvoiceStatus → InvoiceStatus → Result (Unit {0})
unfolding reject_if
assert_invoice_transition current next =
    reject_if (not (includes (invoice_transitions current) next))
      (coded invalid_invoice_transition "Invoice cannot transition")

-- The status changes that the table allows, as a relation.
pub data Step : InvoiceStatus → InvoiceStatus → Type 0 where
  issue : Step draft issued
  drop_draft : Step draft cancelled
  pay_part : Step issued partially_paid
  pay_all : Step issued paid
  cancel : Step issued cancelled
  pay_rest : Step partially_paid paid
  refund_part : Step paid partially_refunded
  refund_all : Step paid refunded
  refund_rest : Step partially_refunded refunded

pub data Reach (s : InvoiceStatus) : InvoiceStatus → Type 0 where
  here : Reach s s
  next : {t u : InvoiceStatus} → Reach s t → Step t u → Reach s u

-- `assertInvoiceTransition` accepts exactly the steps of the relation.
pub assert_invoice_transition-iff-Step :
    (a b : InvoiceStatus) → (assert_invoice_transition a b ≡ ok tt) ↔ Step a b
unfolding assert_invoice_transition
assert_invoice_transition-iff-Step a b = (accepted a b, stepped)
  where
    accepted : (a b : InvoiceStatus) → assert_invoice_transition a b ≡ ok tt → Step a b
    accepted draft issued h = issue
    accepted draft cancelled h = drop_draft
    accepted issued partially_paid h = pay_part
    accepted issued paid h = pay_all
    accepted issued cancelled h = cancel
    accepted partially_paid paid h = pay_rest
    accepted paid partially_refunded h = refund_part
    accepted paid refunded h = refund_all
    accepted partially_refunded refunded h = refund_rest
    accepted _ _ h = cc

    stepped : {a b : InvoiceStatus} → Step a b → assert_invoice_transition a b ≡ ok tt
    stepped issue = refl
    stepped drop_draft = refl
    stepped pay_part = refl
    stepped pay_all = refl
    stepped cancel = refl
    stepped pay_rest = refl
    stepped refund_part = refl
    stepped refund_all = refl
    stepped refund_rest = refl

-- How far along an invoice is: no step goes back.
abbrev pub stage : InvoiceStatus → ℕ
stage draft = 0
stage issued = 1
stage partially_paid = 2
stage paid = 3
stage partially_refunded = 4
stage refunded = 5
stage cancelled = 5

pub stage-lt : {a b : InvoiceStatus} → Step a b → stage a < stage b
stage-lt issue = omega arith
stage-lt drop_draft = omega arith
stage-lt pay_part = omega arith
stage-lt pay_all = omega arith
stage-lt cancel = omega arith
stage-lt pay_rest = omega arith
stage-lt refund_part = omega arith
stage-lt refund_all = omega arith
stage-lt refund_rest = omega arith

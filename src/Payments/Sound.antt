-- ===== src/Payments/Sound.antt =====
-- The money invariant of the payment tables.
pub mod Captures
pub mod Refunds
use bf_techops.Prelude.{
  ℕ, ◌+◌, ◌≤◌, ◌≡◌, refl, sym, ap, subst, ◌∙◌, Bool, true, false, ◌&&◌, Option, none, some, List,
  [], ◌∷◌, ◌==◌, All, arith, if◌then◌else◌, inl, inr, Bool-cases, ==_refl, ==_iff,
}
use mathlib.Core.Option
use bf_techops.Prelude.Table.{find_one, any_row, update_where, sum_where}
use bf_techops.Prelude.Table.Laws.{updated, find_one-update_where, sum_where-update_where}
use bf_techops.Prelude.Table.Unique.{
  Distinct, any_row-key, found_key, Distinct-update_where, All-update_where, All-map, found_alone,
  or_true, absurd_bool, find_one-holds,
}
use bf_techops.Js.{Text}
use bf_techops.Wire.{Uuid, InvoiceStatus, PaymentWebhookDto, PaymentWebhookResponse}
use bf_techops.Persistence.Entities.{InvoiceEntity, PaymentEntity, RefundEntity}
use bf_techops.Persistence.Database.{Database, Env}
use bf_techops.Invoices.Defs.{find_invoice}
use bf_techops.Payments.Defs.{
  captured_total, with_status, with_refund, find_payment, payment_status_after,
}
use bf_techops.Payments.Defs.Rows.{refund_row}
use bf_techops.Payments.Capture.{Captured, captured_db}
use bf_techops.Payments.Refund.{Refunded, refund_recorded, refund_finished}

-- What the refunds of a payment sum up to.
unfoldable pub refunds_of : List RefundEntity → Uuid → ℕ
refunds_of refunds payment_id =
    sum_where (λ r. r.payment_id == payment_id) (λ r. r.amount_minor) refunds

-- A payment's refunds sum up to what it says, and are at most its amount.
pub record IsBooked (refunds : List RefundEntity) (p : PaymentEntity) : Type 0 where
  pub booked : refunds_of refunds p.id ≡ p.refunded_minor
  pub within : p.refunded_minor ≤ p.amount_minor

pub record IsSound (db : Database) : Type 0 where
  pub distinct : Distinct (λ p. p.id) db.payments
  pub covered :
      (id : Uuid) (invoice : InvoiceEntity)
      → find_invoice db id ≡ some invoice
      → captured_total db id ≤ invoice.total_minor
  pub payments_booked : All (IsBooked db.refunds) db.payments
  pub owned : All (λ r. any_row (λ p. p.id == r.payment_id) db.payments ≡ true) db.refunds

abbrev value_or {ℓ} : {A : Type ℓ} → A → Option A → A
value_or a none = a
value_or a (some b) = b

pub on_map {ℓ κ μ} :
    {A : Type ℓ} {B : Type κ} {C : Type μ} {f : A → B} (o : Option A) {b : B}
    → Option.map f o ≡ some b
    → ((a : A) → o ≡ some a → f a ≡ b → C)
    → C
on_map none h k = cc
on_map (some a) {b} h k = k a refl (ap (value_or b) h)

-- An invoice that was found after its table had a status set was there before, with the same total.
pub on_found_invoice {κ} :
    {C : Type κ} (env : Env) (status : InvoiceStatus) (key id : Uuid) (rows : List InvoiceEntity)
    {invoice : InvoiceEntity}
    → find_one (λ r. r.id == id) (update_where (λ r. r.id == key) (with_status env status) rows)
      ≡ some invoice
    → ((before : InvoiceEntity)
        → find_one (λ r. r.id == id) rows ≡ some before
        → updated (λ r. r.id == key) (with_status env status) before ≡ invoice
        → C)
    → C
on_found_invoice env status key id rows h k =
    on_map (find_one (λ r. r.id == id) rows)
      (sym (
          find_one-update_where (λ r. r.id == id) (λ r. r.id == key) (with_status env status)
            (λ r. refl) rows)
        ∙ h)
      k

pub found_id :
    (db : Database) (id : Uuid) {invoice : InvoiceEntity}
    → find_invoice db id ≡ some invoice
    → invoice.id ≡ id
unfolding find_invoice
found_id db id {invoice} h =
    (==_iff invoice.id id).0 (find_one-holds (λ r. r.id == id) db.invoices h)

pub updated_total :
    (env : Env) (status : InvoiceStatus) (key : Uuid) (r : InvoiceEntity)
    → (updated (λ r. r.id == key) (with_status env status) r).total_minor ≡ r.total_minor
updated_total env status key r = elim (Bool-cases (r.id == key)) [
  | inl e ↦ rw e refl
  | inr e ↦ rw e refl
]

-- No refund of a payment that is not there.
pub no_refunds :
    (payments : List PaymentEntity) (id : Uuid) (refunds : List RefundEntity)
    → any_row (λ p. p.id == id) payments ≡ false
    → All (λ r. any_row (λ p. p.id == r.payment_id) payments ≡ true) refunds
    → refunds_of refunds id ≡ 0
unfolding refunds_of sum_where
no_refunds payments id [] fresh owned = refl
no_refunds payments id (r ∷ refunds) fresh owned =
    let other = Bool-cases (r.payment_id == id) in
    elim other [
      | inl same ↦ absurd_bool (
          sym owned.0
          ∙ ap (λ (k : ℕ). any_row (λ p. p.id == k) payments) ((==_iff r.payment_id id).0 same)
          ∙ fresh)
      | inr differs ↦ rw (differs, no_refunds payments id refunds fresh owned.1) refl
    ]

-- What is captured, with the new amount if it is for this invoice, is covered by the invoice.
pub adds_up :
    (db : Database) (key id : Uuid) (amount : ℕ) (before : InvoiceEntity) {invoice : InvoiceEntity}
    → IsSound db
    → find_invoice db key ≡ some invoice
    → captured_total db invoice.id + amount ≤ invoice.total_minor
    → find_invoice db id ≡ some before
    → (if invoice.id == id then amount else 0) + captured_total db id ≤ before.total_minor
adds_up db key id amount before {invoice} sound found within there =
    elim (Bool-cases (invoice.id == id)) [
      | inl this ↦
          let same_id = (==_iff invoice.id id).0 this in
          let same_key = sym same_id ∙ found_id db key found in
          let same : before ≡ invoice =
            ap (value_or before) (sym there ∙ ap (find_invoice db) same_key ∙ found) in
          let total = ap (λ (r : InvoiceEntity). r.total_minor) same in
          let sum = ap (captured_total db) same_id in rw this (omega arith)
      | inr other ↦ let old = sound.covered id before there in rw other (omega arith)
    ]

pub ==_sym_false : (a b : ℕ) → (a == b) ≡ false → (b == a) ≡ false
==_sym_false a b h = ground arith

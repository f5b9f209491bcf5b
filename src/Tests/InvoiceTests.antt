-- ===== src/Tests/InvoiceTests.antt =====
-- Invoices under idempotency keys, status changes, and the merchant scope.
use bf_techops.Prelude.{
  ℕ, ◌≡◌, ◌⊎◌, ◌<◌, ◌≢◌, length, refl, true, Option, none, some, [], ◌∷◌, All, arith,
}
use bf_techops.Prelude.Table.{find_one, any_row, update_where, count_where}
use bf_techops.Failure
use bf_techops.Failure.{ok, err, Result, reject_if, or_throw, conflict, not_found}
use bf_techops.Js.{Text, codes, trim, trim_start, trim_end, is_space}
use bf_techops.Js.Double.{to_double, math_round_div, shift_up, shift_down, round_half_even}
use bf_techops.Persistence.Database as Db
use bf_techops.Persistence.Database.{
  Database, Env, Metric, World, Action, pure, throw, lift, gets, attempt, throw_if, some_or_throw,
  write, count, draw, transaction, transaction_read_committed, try_catch,
}
use bf_techops.Persistence.Insert.{
  refusal, invoice_fits, line_fits, insert_invoice, insert_invoice_line, insert_invoice_lines,
  insert_outbox_event, insert_audit_event, insert_idempotency_record,
}
use bf_techops.Wire.{issued, cancelled, CreateInvoiceDto, UpdateInvoiceStatusDto, InvoiceResponse}
use bf_techops.Audit.{record_audit}
use bf_techops.Domain.Money.{
  calculate_invoice, require_integer, normalize_item, normalize_items, tax_of, totals,
}
use bf_techops.Domain.IdempotencyKey.{is_key_unit, matches_key, normalize_idempotency_key}
use bf_techops.Domain.StableJson.{stable_json, quoted, decimal, text_leb}
use bf_techops.Domain.Transition.{assert_invoice_transition}
use bf_techops.MerchantScope.Defs.{
  authorized_merchant_ids, parent_of, climb, find_store, authorize_store,
}
use bf_techops.MerchantScope.Under.{
  Under, Within, authorized_merchant_ids-Under, authorize_store-Under,
}
use bf_techops.Invoices.Defs.{
  find_invoice, find_idempotency, issue_invoice, create_under_key, create_failed, create,
  transition_checks, transition_writes, transition,
}
use bf_techops.Invoices.Defs.Rows.{request_fingerprint, line_rows, to_response}
use bf_techops.Invoices.Create.{create-Answered, create_atomic, Created, Replayed}
use bf_techops.Invoices.Once.{at, Keeps, create_once, create_other_refused}
use bf_techops.Invoices.Transition.{Transitioned, transition-Transitioned}
use bf_techops.Tests.Fixtures.{env, world, actor, store, invoice}

abbrev dto : CreateInvoiceDto
dto = record {
  store_id = 20;
  customer_name = codes "Ada";
  customer_contact = codes "ada@example.com";
  currency = codes "INR";
  discount_minor = 0;
  tax_rate_basis_points = 1800;
  items = record { description = codes "a"; quantity = 1; unit_price_minor = 100 } ∷ [];
}

abbrev raw_key : Option Text
raw_key = some (codes "order-2024:0000001")

-- No other transaction commits anything.
abbrev alone : Database → Database
alone db = db

abbrev created_world : World
created_world = (create env actor none dto alone raw_key world).1

abbrev created_response : InvoiceResponse
created_response = record {
  id = 1000;
  store_id = 20;
  status = issued;
  currency = codes "INR";
  subtotal_minor = 100;
  discount_minor = 0;
  tax_minor = 18;
  total_minor = 118;
  issued_at = 10_000_000_000;
  version = 1;
}

creates : create env actor none dto alone raw_key world ≡ (ok created_response, created_world)
unfolding create normalize_idempotency_key matches_key is_key_unit trim trim_start trim_end is_space
    transaction_read_committed create_under_key issue_invoice find_idempotency authorize_store
    find_store climb parent_of calculate_invoice require_integer normalize_item normalize_items
    tax_of totals to_double math_round_div shift_up shift_down round_half_even line_rows
    insert_invoice invoice_fits insert_invoice_lines insert_invoice_line line_fits
    insert_outbox_event insert_idempotency_record insert_audit_event record_audit refusal find_one
    any_row Failure.◌>>=◌ reject_if or_throw Db.◌>>=◌ pure throw lift gets attempt throw_if
    some_or_throw write count draw transaction try_catch
creates = refl

create-Answered_example :
    (key : Text) × (normalize_idempotency_key raw_key ≡ ok key)
    × (Created env actor none dto key
          (find_idempotency env world.db 1 key)
          world.db
          created_response
          created_world.db
        ⊎ Replayed env actor none dto key world.db created_response created_world.db)
create-Answered_example = create-Answered env actor none dto alone raw_key world creates

-- The state later, when an invoice was cancelled and the metrics were reset.
abbrev later_world : World
later_world = record created_world {
  db = record created_world.db {
    invoices = record invoice { status = cancelled; version = 2 } ∷ [];
  };
  metrics = [];
}

kept_records : Keeps env actor none dto created_world.db later_world.db
unfolding find_idempotency
kept_records key r found = found

create_once_example :
    create (at env 20_000_000_000 (λ n. n)) actor none dto alone raw_key later_world
    ≡ (ok created_response, record later_world { metrics = Metric.invoices "replayed" ∷ [] })
create_once_example =
    create_once env actor none dto 20_000_000_000 (λ n. n) none alone alone raw_key world
      created_world later_world created_response (λ key r found. found) creates kept_records

-- An environment whose fingerprints tell requests of different lengths apart.
abbrev env₂ : Env
env₂ = record env { sha256 = λ s. length s }

abbrev dto₂ : CreateInvoiceDto
dto₂ = record dto { customer_name = codes "Grace" }

abbrev created_world₂ : World
created_world₂ = (create env₂ actor none dto alone raw_key world).1

creates₂ : create env₂ actor none dto alone raw_key world ≡ (ok created_response, created_world₂)
unfolding create normalize_idempotency_key matches_key is_key_unit trim trim_start trim_end is_space
    transaction_read_committed create_under_key issue_invoice find_idempotency authorize_store
    find_store climb parent_of calculate_invoice require_integer normalize_item normalize_items
    tax_of totals to_double math_round_div shift_up shift_down round_half_even line_rows
    insert_invoice invoice_fits insert_invoice_lines insert_invoice_line line_fits
    insert_outbox_event insert_idempotency_record insert_audit_event record_audit refusal find_one
    any_row Failure.◌>>=◌ reject_if or_throw Db.◌>>=◌ pure throw lift gets attempt throw_if
    some_or_throw write count draw transaction try_catch
creates₂ = refl

fingerprints_differ : request_fingerprint env₂ dto ≢ request_fingerprint env₂ dto₂
unfolding request_fingerprint stable_json quoted decimal text_leb
fingerprints_differ = λ h. omega (arith, h)

create_other_refused_example :
    create (at env₂ 5 (λ n. n)) actor none dto₂ alone raw_key created_world₂ ≡ (
      err (conflict "Idempotency key was already used with a different request"),
      record created_world₂ {
        db = created_world₂.db;
        metrics = Metric.invoices "failed" ∷ created_world₂.metrics;
      },
    )
create_other_refused_example =
    create_other_refused env₂ actor none dto 5 (λ n. n) none dto₂ alone alone raw_key world
      created_world₂ created_world₂ created_response (λ key r found. found) creates₂
      (λ key r found. found) fingerprints_differ

abbrev lost_dto : CreateInvoiceDto
lost_dto = record dto { store_id = 99 }

abbrev failed_world : World
failed_world = (create env actor none lost_dto alone raw_key world).1

fails :
    create env actor none lost_dto alone raw_key world
    ≡ (err (not_found "Store not found"), failed_world)
unfolding create normalize_idempotency_key matches_key is_key_unit trim trim_start trim_end is_space
    transaction_read_committed create_under_key issue_invoice find_idempotency authorize_store
    find_store climb parent_of calculate_invoice require_integer normalize_item normalize_items
    tax_of totals to_double math_round_div shift_up shift_down round_half_even line_rows
    insert_invoice invoice_fits insert_invoice_lines insert_invoice_line line_fits
    insert_outbox_event insert_idempotency_record insert_audit_event record_audit refusal find_one
    any_row Failure.◌>>=◌ reject_if or_throw Db.◌>>=◌ pure throw lift gets attempt throw_if
    some_or_throw write count draw transaction try_catch create_failed
fails = refl

create_atomic_example : (failed_world.db ≡ world.db) ⊎ (failed_world.db ≡ world.db)
create_atomic_example =
    create_atomic env actor none lost_dto alone raw_key world failed_world _ fails

abbrev cancel_dto : UpdateInvoiceStatusDto
cancel_dto = record { status = cancelled; expected_version = 1 }

abbrev cancelled_world : World
cancelled_world = (transition env actor 50 none cancel_dto alone world).1

abbrev cancelled_response : InvoiceResponse
cancelled_response = to_response (record invoice { status = cancelled; version = 2 })

cancels :
    transition env actor 50 none cancel_dto alone world ≡ (ok cancelled_response, cancelled_world)
unfolding transition transition_checks transition_writes transaction_read_committed find_invoice
    authorize_store find_store climb parent_of assert_invoice_transition insert_outbox_event
    insert_audit_event record_audit refusal find_one any_row count_where update_where reject_if
    or_throw Db.◌>>=◌ pure throw lift gets attempt throw_if some_or_throw write draw transaction
cancels = refl

transition-Transitioned_example :
    Transitioned env actor 50 none cancel_dto world.db world.db cancelled_response
      cancelled_world.db
transition-Transitioned_example =
    transition-Transitioned env actor 50 none cancel_dto alone world cancelled_world
      cancelled_response cancels

-- Another transaction has cancelled the invoice meanwhile.
abbrev faster : Database → Database
faster db = cancelled_world.db

authorized_merchant_ids-Under_example :
    All (Within world.merchants 1 16) (authorized_merchant_ids world.db 1)
authorized_merchant_ids-Under_example = authorized_merchant_ids-Under world.db 1

authorizes : authorize_store world.db 1 20 ≡ ok store
unfolding authorize_store find_store climb parent_of find_one
authorizes = refl

authorize_store-Under_example :
    (find_store world.db 20 ≡ some store)
    × (store.id ≡ 20)
    × (store.active ≡ true)
    × ((n : ℕ) × (n < 16) × Under world.merchants 1 n 2)
authorize_store-Under_example = authorize_store-Under world.db 1 20 store authorizes

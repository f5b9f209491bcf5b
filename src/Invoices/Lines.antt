-- ===== src/Invoices/Lines.antt =====
-- The rows of an invoice's lines in `create` of apps/api/src/invoices/invoice.service.ts.
use bf_techops.Prelude.{ℕ, ◌+◌, ◌≡◌, refl, sym, ap, ◌∙◌, List, [], ◌∷◌}
use bf_techops.Failure.{ok}
use bf_techops.Wire.{Uuid}
use bf_techops.Persistence.Entities.{InvoiceLineEntity}
use bf_techops.Persistence.Database.{Env, World}
use bf_techops.Persistence.Insert.{insert_invoice_line, insert_invoice_lines}
use bf_techops.Persistence.Inversion.{on_bind, on_insert, after_draw, pure-ok}
use bf_techops.Domain.Money.{CalculatedInvoiceLine}
use bf_techops.Invoices.Defs.Rows.{line_rows}

-- The rows of some items, from a position on, each with an identifier.
pub LinesOf : Uuid → ℕ → List CalculatedInvoiceLine → List InvoiceLineEntity → Type 0
LinesOf invoice_id position [] rows = rows ≡ []
LinesOf invoice_id position (item ∷ items) rows =
    (id : Uuid) × (more : List InvoiceLineEntity) × LinesOf invoice_id (position + 1) items more
    × (rows
        ≡ record {
          id = id;
          invoice_id = invoice_id;
          position = position;
          description = item.description;
          quantity = item.quantity;
          unit_price_minor = item.unit_price_minor;
          line_total_minor = item.line_total_minor;
        }
          ∷ more)

pub line_rows-LinesOf :
    (env : Env) (invoice_id : Uuid) (position : ℕ) (items : List CalculatedInvoiceLine) (w : World)
    {rows : List InvoiceLineEntity} {w' : World}
    → line_rows env invoice_id position items w ≡ (ok rows, w')
    → LinesOf invoice_id position items rows
unfolding line_rows LinesOf
line_rows-LinesOf env invoice_id position [] w h = sym (pure-ok _ _ h).0
line_rows-LinesOf env invoice_id position (item ∷ items) w h =
    on_bind (line_rows env invoice_id (position + 1) items) _ (after_draw env _ h)
      λ rows w₁ more h₁. (
        env.random_uuid w.drawn,
        rows,
        line_rows-LinesOf env invoice_id (position + 1) items _ more,
        sym (pure-ok _ _ h₁).0,
      )

pub line_rows-db :
    (env : Env) (invoice_id : Uuid) (position : ℕ) (items : List CalculatedInvoiceLine) (w : World)
    {rows : List InvoiceLineEntity} {w' : World}
    → line_rows env invoice_id position items w ≡ (ok rows, w')
    → w'.db ≡ w.db
unfolding line_rows
line_rows-db env invoice_id position [] w h = ap (λ (v : World). v.db) (sym (pure-ok _ _ h).1)
line_rows-db env invoice_id position (item ∷ items) w h =
    on_bind (line_rows env invoice_id (position + 1) items) _ (after_draw env _ h)
      λ rows w₁ more h₁.
        ap (λ (v : World). v.db) (sym (pure-ok _ _ h₁).1)
        ∙ line_rows-db env invoice_id (position + 1) items _ more

-- Rows that were inserted one after the other: the last one comes first.
pub inserted : List InvoiceLineEntity → List InvoiceLineEntity → List InvoiceLineEntity
inserted [] table = table
inserted (row ∷ rows) table = inserted rows (row ∷ table)

-- Exactly these lines are added.
pub insert_invoice_lines-db :
    (rows : List InvoiceLineEntity) (w : World) {u : Unit {0}} {w' : World}
    → insert_invoice_lines rows w ≡ (ok u, w')
    → w'.db ≡ record w.db { invoice_lines = inserted rows w.invoice_lines }
unfolding insert_invoice_lines insert_invoice_line inserted
insert_invoice_lines-db [] w h = ap (λ (v : World). v.db) (sym (pure-ok _ _ h).1)
insert_invoice_lines-db (row ∷ rows) w h =
    on_insert _ _ (insert_invoice_line row) _ w _ refl h λ _ _ h₁. insert_invoice_lines-db rows _ h₁

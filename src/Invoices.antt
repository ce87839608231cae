-- ===== src/Invoices.antt =====
-- apps/api/src/invoices/service.ts: creating, editing, voiding and deleting customer invoices. The
-- arithmetic of JS numbers is a parameter. A service returns the row, and the lines where it has them
-- at hand, that the source turns into its `Invoice` view.
pub mod Lines
pub mod Books
pub mod Voiding
pub mod Deleting
pub mod Refusing
mod Rows
unfoldable pub use Rows.*
use invoicing_platform.Prelude.{
  ℕ, suc, ◌+◌, String, Bool, true, false, ◌&&◌, ◌||◌, not, Option, none, some, List, [], ◌∷◌, ◌==◌,
  first, select, is_some, or_default, length, map, if◌then◌else◌,
}
use invoicing_platform.Prelude.Int.{ℤ, pos}
use invoicing_platform.Database.{
  RowId, ContactRow, TransactionType, customer_invoice, TransactionStatus, draft, opened,
  partially_paid, paid, voided, local, success, TransactionRow, TransactionLineRow, AuditLogRow,
  Database, not_found, invalid_state, invalid_contact, version_conflict, failed_write, Tx, pure,
  gets, raise_if, some_or_raise, ◌>>=◌, ◌>>◌,
}
use invoicing_platform.Database.Statements.{
  insert_transaction, update_transactions, delete_lines, insert_lines, write_audit_log,
}
use invoicing_platform.Accounts.{get_contact}
use invoicing_platform.Ledger.{ZeroOutLedgerArgs, post_ledger, zero_out_ledger}
use Lines.{
  JsNumber, InvoiceLineInput, ResolvedLine, InvoiceAccounts, require_invoice_accounts,
  resolve_lines, total_amount_cents, build_invoice_postings,
}

-- The contact of an edited invoice: a changed one has to be a customer.
abbrev customer_id : RowId → RowId → Tx (Option RowId)
customer_id org id = do contact ← require_customer_contact org id; pure (some contact.id)

unfoldable pub patched_contact : RowId → Option RowId → Option RowId → Tx (Option RowId)
patched_contact org none existing = pure existing
patched_contact org (some id) none = customer_id org id
patched_contact org (some id) (some old) = if id == old then pure (some old) else customer_id org id

module _ (js : JsNumber) where
  unfoldable pub insert_customer_invoice :
      RowId → CreateInvoiceInput → Option RowId → Tx (TransactionRow × List TransactionLineRow)
  insert_customer_invoice org input created_by = do
    accounts ← require_invoice_accounts org
    lines ← resolve_lines js org accounts.sales_income.id input.lines
    row ← insert_transaction (invoice_row org input created_by (total_amount_cents lines))
    line_rows ← insert_transaction_lines org row.id lines
    post_ledger (record {
      org_id = org;
      transaction_id = row.id;
      entry_date = input.txn_date;
      lines = build_invoice_postings lines accounts.ar.id (some input.contact_id);
    })
    pure (row, line_rows)

  unfoldable pub create_invoice :
      InvoiceContext → CreateInvoiceInput → Tx (TransactionRow × List TransactionLineRow)
  create_invoice ctx input = do
    contact ← require_customer_contact ctx.org_id input.contact_id
    created ←
        insert_customer_invoice ctx.org_id (record input { contact_id = contact.id })
          (some ctx.user_id)
    write_audit_log (audit_row ctx (created.0).id "create")
    pure created

  abbrev resolved_of : TransactionLineRow → ResolvedLine
  resolved_of line = record {
    line_number = line.line_number;
    item_id = line.item_id;
    account_id = line.account_id;
    description = line.description;
    quantity = line.quantity;
    unit_price = line.unit_price;
    amount_cents = line.amount;
  }

  -- The lines after the edit: the new ones in place of the old, or the old ones.
  unfoldable pub patched_lines :
      RowId
      → RowId
      → RowId
      → Option (List InvoiceLineInput)
      → Tx (List ResolvedLine × List TransactionLineRow)
  patched_lines org id default_income none = do
    existing ← gets (fetch_invoice_lines org id)
    pure (map resolved_of existing, existing)
  patched_lines org id default_income (some lines) = do
    resolved ← resolve_lines js org default_income lines
    delete_lines (is_line_of org id)
    rows ← insert_transaction_lines org id resolved
    pure (resolved, rows)

  -- `patch.field !== undefined ? patch.field : existing.field`
  abbrev set_some {ℓ} : {A : Type ℓ} → Option A → Option A → Option A
  set_some none old = old
  set_some (some v) old = some v

  abbrev edited_row :
      UpdateInvoiceInput
      → Option RowId
      → String
      → ℤ
      → TransactionRow
      → ℕ
      → TransactionRow
      → TransactionRow
  edited_row patch contact txn_date total_cents existing now t = record t {
    contact_id = contact;
    txn_date = txn_date;
    due_date = set_some patch.due_date existing.due_date;
    memo = set_some patch.memo existing.memo;
    doc_number = set_some patch.doc_number existing.doc_number;
    subtotal = total_cents;
    total = total_cents;
    balance = total_cents;
    version = t.version + 1;
    updated_at = now;
  }

  unfoldable pub update_invoice :
      InvoiceContext → RowId → UpdateInvoiceInput → Tx (TransactionRow × List TransactionLineRow)
  update_invoice ctx id patch = do
    existing ← load_invoice_row false ctx.org_id id
    raise_if (not (is_open existing.status)) invalid_state
    contact ← patched_contact ctx.org_id patch.contact_id existing.contact_id
    accounts ← require_invoice_accounts ctx.org_id
    lines ← patched_lines ctx.org_id id accounts.sales_income.id patch.lines
    let txn_date = or_default patch.txn_date existing.txn_date
    zero_out_ledger (record {
      org_id = ctx.org_id;
      transaction_id = id;
      entry_date = txn_date;
      contact_id = existing.contact_id;
    })
    post_ledger (record {
      org_id = ctx.org_id;
      transaction_id = id;
      entry_date = txn_date;
      lines = build_invoice_postings lines.0 accounts.ar.id contact;
    })
    updated ←
        update_versioned_invoice ctx.org_id id existing.version
          (edited_row patch contact txn_date (total_amount_cents lines.0) existing)
    write_audit_log (audit_row ctx id "update")
    pure (updated, lines.1)

abbrev pub zero_out_of : InvoiceContext → RowId → TransactionRow → ZeroOutLedgerArgs
zero_out_of ctx id existing = record {
  org_id = ctx.org_id;
  transaction_id = id;
  entry_date = existing.txn_date;
  contact_id = existing.contact_id;
}

abbrev pub voided_row : ℕ → TransactionRow → TransactionRow
voided_row now t = record t {
  status = voided;
  balance = pos 0;
  version = t.version + 1;
  updated_at = now;
}

unfoldable pub void_invoice : InvoiceContext → RowId → Tx (TransactionRow × List TransactionLineRow)
void_invoice ctx id = do
  existing ← load_invoice_row false ctx.org_id id
  raise_if (not (is_open existing.status)) invalid_state
  zero_out_ledger (zero_out_of ctx id existing)
  updated ← update_versioned_invoice ctx.org_id id existing.version voided_row
  lines ← gets (fetch_invoice_lines ctx.org_id id)
  write_audit_log (audit_row ctx id "void")
  pure (updated, lines)

pub data DeleteInvoiceResult : Type 0 where
  deleted : TransactionRow → List TransactionLineRow → DeleteInvoiceResult
  skipped : TransactionRow → List TransactionLineRow → DeleteInvoiceResult

abbrev pub deleted_row : TransactionRow → ℕ → TransactionRow → TransactionRow
deleted_row existing now t = record t {
  deleted_at = some now;
  balance = pos 0;
  version = existing.version + 1;
  updated_at = now;
}

unfoldable pub delete_live_invoice :
    InvoiceContext → RowId → TransactionRow → List TransactionLineRow → Tx DeleteInvoiceResult
delete_live_invoice ctx id existing lines = do
  raise_if (has_payments existing.status) invalid_state
  zero_out_ledger (zero_out_of ctx id existing)
  changed ← update_transactions (λ t. t.org_id == ctx.org_id && t.id == id) (deleted_row existing)
  updated ← some_or_raise changed failed_write
  write_audit_log (audit_row ctx id "delete")
  pure (deleted updated lines)

-- `if (existing.deletedAt) return { action: 'skipped', … }`
abbrev pub delete_loaded :
    InvoiceContext
    → RowId
    → TransactionRow
    → List TransactionLineRow
    → Option ℕ
    → Tx DeleteInvoiceResult
delete_loaded ctx id existing lines none = delete_live_invoice ctx id existing lines
delete_loaded ctx id existing lines (some _) = pure (skipped existing lines)

unfoldable pub delete_invoice : InvoiceContext → RowId → Tx DeleteInvoiceResult
delete_invoice ctx id = do
  existing ← load_invoice_row true ctx.org_id id
  lines ← gets (fetch_invoice_lines ctx.org_id id)
  delete_loaded ctx id existing lines existing.deleted_at

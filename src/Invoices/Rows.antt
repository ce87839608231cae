-- ===== src/Invoices/Rows.antt =====
-- apps/api/src/invoices/service.ts: the inputs, the rows that are read and written, and the checks that
-- the services share.
use invoicing_platform.Prelude.{
  ℕ, suc, String, Bool, true, false, ◌&&◌, ◌||◌, not, Option, none, some, List, [], ◌∷◌, ◌==◌,
  first, select, is_some, length,
}
use invoicing_platform.Prelude.Int.{ℤ}
use invoicing_platform.Database.{
  RowId, ContactRow, TransactionType, customer_invoice, TransactionStatus, opened, partially_paid,
  paid, local, success, TransactionRow, TransactionLineRow, AuditLogRow, Database, not_found,
  invalid_contact, version_conflict, Tx, pure, gets, raise_if, some_or_raise, ◌>>=◌, ◌>>◌,
}
use invoicing_platform.Database.Statements.{update_transactions, insert_lines}
use invoicing_platform.Accounts.{get_contact}
use invoicing_platform.Invoices.Lines.{InvoiceLineInput, ResolvedLine}

pub record InvoiceContext : Type 0 where
  pub org_id : RowId
  pub user_id : RowId

-- `InsertInvoiceInput` and `CreateInvoiceInput`; `created_by` is the context's user in the latter.
pub record CreateInvoiceInput : Type 0 where
  pub contact_id : RowId
  pub txn_date : String
  pub due_date : Option String
  pub memo : Option String
  pub doc_number : Option String
  pub lines : List InvoiceLineInput

pub record UpdateInvoiceInput : Type 0 where
  pub contact_id : Option RowId
  pub txn_date : Option String
  pub due_date : Option String
  pub memo : Option String
  pub doc_number : Option String
  pub lines : Option (List InvoiceLineInput)

unfoldable pub require_customer_contact : RowId → RowId → Tx ContactRow
require_customer_contact org id = do
  found ← gets (get_contact org id)
  contact ← some_or_raise found invalid_contact
  raise_if (not contact.is_customer) invalid_contact
  pure contact

abbrev is_invoice : TransactionType → Bool
is_invoice customer_invoice = true
is_invoice _ = false

-- The conditions of `loadInvoiceRow`; the flag is `includeDeleted`.
abbrev pub is_invoice_row : Bool → RowId → RowId → TransactionRow → Bool
is_invoice_row include_deleted org id t =
    t.org_id == org
    && t.id == id
    && (is_invoice t.type && (include_deleted || not (is_some t.deleted_at)))

unfoldable pub load_invoice_row : Bool → RowId → RowId → Tx TransactionRow
load_invoice_row include_deleted org id = do
  existing ← gets (λ db. first (is_invoice_row include_deleted org id) db.transactions)
  some_or_raise existing not_found

abbrev line_rows : RowId → RowId → List ResolvedLine → ℕ → List TransactionLineRow
line_rows org txn [] id = []
line_rows org txn (line ∷ lines) id =
    record {
      id = id;
      org_id = org;
      transaction_id = txn;
      line_number = line.line_number;
      item_id = line.item_id;
      account_id = line.account_id;
      description = line.description;
      quantity = line.quantity;
      unit_price = line.unit_price;
      amount = line.amount_cents;
    }
    ∷ line_rows org txn lines (suc id)

unfoldable pub insert_transaction_lines :
    RowId → RowId → List ResolvedLine → Tx (List TransactionLineRow)
insert_transaction_lines org txn lines = insert_lines (line_rows org txn lines) (length lines)

abbrev pub is_line_of : RowId → RowId → TransactionLineRow → Bool
is_line_of org txn l = l.org_id == org && l.transaction_id == txn

unfoldable pub fetch_invoice_lines : RowId → RowId → Database → List TransactionLineRow
fetch_invoice_lines org txn db = select (is_line_of org txn) db.transaction_lines

abbrev pub invoice_row : RowId → CreateInvoiceInput → Option RowId → ℤ → ℕ → ℕ → TransactionRow
invoice_row org input created_by total_cents id now = record {
  id = id;
  org_id = org;
  type = customer_invoice;
  status = opened;
  contact_id = some input.contact_id;
  doc_number = input.doc_number;
  txn_date = input.txn_date;
  due_date = input.due_date;
  memo = input.memo;
  subtotal = total_cents;
  total = total_cents;
  balance = total_cents;
  version = 0;
  created_by = created_by;
  deleted_at = none;
  updated_at = now;
}

abbrev pub audit_row : InvoiceContext → RowId → String → AuditLogRow
audit_row ctx id action = record {
  org_id = ctx.org_id;
  user_id = some ctx.user_id;
  entity_type = "transaction";
  local_id = some id;
  action = action;
  direction = local;
  outcome = success;
}

unfoldable pub update_versioned_invoice :
    RowId → RowId → ℕ → (ℕ → TransactionRow → TransactionRow) → Tx TransactionRow
update_versioned_invoice org id expected_version set = do
  changed ←
      update_transactions (λ t. t.org_id == org && t.id == id && t.version == expected_version) set
  some_or_raise changed version_conflict

abbrev pub is_open : TransactionStatus → Bool
is_open opened = true
is_open _ = false

abbrev pub has_payments : TransactionStatus → Bool
has_payments partially_paid = true
has_payments paid = true
has_payments _ = false

-- ===== src/Payments.antt =====
-- apps/api/src/payments/service.ts: payments against invoices. A service returns the row that the
-- source turns into its view, and an `InvoiceSummary` is the updated row. A lock (`FOR UPDATE`) does
-- nothing in a model where one transaction runs at a time.
mod Found
pub mod Closing
pub mod Status
pub mod Applied
pub mod Recording
pub mod Books
pub mod Reading
mod Rows
unfoldable pub use Rows.*
use invoicing_platform.Prelude.{
  ℕ, ◌+◌, String, Bool, true, false, ◌&&◌, ◌||◌, not, Option, none, some, List, [], ◌∷◌, ◌==◌,
  first, select, is_some,
}
use invoicing_platform.Prelude.Int.{ℤ, pos, ◌+ℤ◌, ◌-ℤ◌, leb_ℤ, ltb_ℤ}
use invoicing_platform.Money.{Amount, text, to_cents, format_cents}
use invoicing_platform.Database.{
  RowId, AccountRow, asset, TransactionType, customer_invoice, payment, TransactionStatus, opened,
  partially_paid, paid, voided, transaction, local, success, TransactionRow, PaymentApplicationRow,
  AuditLogRow, Database, not_found, invalid_state, overpayment, invalid_amount,
  invalid_deposit_account, chart_not_seeded, version_conflict, failed_write, Tx, pure, gets,
  raise_if, some_or_raise, ◌>>=◌, ◌>>◌,
}
use invoicing_platform.Database.Statements.{
  insert_transaction, update_transactions, insert_application, delete_applications, write_audit_log,
}
use invoicing_platform.Accounts.{get_account_by_subtype, find_account}
use invoicing_platform.Ledger.{PostLedgerInput, post_ledger, zero_out_ledger}
use invoicing_platform.Sync.Links.{bump_local_version}
use Status.{derive_invoice_status, remaining_balance}

-- The guards of `recordPayment`: the amount that may be applied to the invoice.
unfoldable pub checked_amount : PaymentContext → TransactionRow → RecordPaymentInput → Tx ℤ
checked_amount ctx invoice input = do
  raise_if (not (is_payable invoice.status)) invalid_state
  amount_cents ← some_or_raise (to_cents input.amount) invalid_amount
  raise_if (leb_ℤ amount_cents (pos 0)) invalid_amount
  already_paid_cents ← gets (sum_applied_cents ctx.org_id invoice.id)
  raise_if (ltb_ℤ (invoice.total -ℤ already_paid_cents) amount_cents) overpayment
  pure amount_cents

abbrev pub payment_postings :
    PaymentContext
    → RecordPaymentInput
    → TransactionRow
    → ℤ
    → RowId
    → RowId
    → RowId
    → PostLedgerInput
payment_postings ctx input invoice amount_cents deposit_account_id ar_id payment_id = record {
  org_id = ctx.org_id;
  transaction_id = payment_id;
  entry_date = input.txn_date;
  lines =
      record {
        account_id = deposit_account_id;
        contact_id = invoice.contact_id;
        debit = some (text (format_cents amount_cents));
        credit = none;
      }
      ∷ record {
        account_id = ar_id;
        contact_id = invoice.contact_id;
        debit = none;
        credit = some (text (format_cents amount_cents));
      }
      ∷ [];
}

-- The payment's own rows and postings.
unfoldable pub insert_payment :
    PaymentContext → RecordPaymentInput → TransactionRow → ℤ → RowId → RowId → Tx TransactionRow
insert_payment ctx input invoice amount_cents deposit_account_id ar_id = do
  row ← insert_transaction (payment_row ctx input invoice amount_cents)
  insert_application (λ id. record {
    id = id;
    org_id = ctx.org_id;
    payment_txn_id = row.id;
    invoice_txn_id = invoice.id;
    amount = amount_cents;
  })
  post_ledger (payment_postings ctx input invoice amount_cents deposit_account_id ar_id row.id)
  pure row

unfoldable pub record_payment :
    PaymentContext → RowId → RecordPaymentInput → Tx (TransactionRow × TransactionRow)
record_payment ctx invoice_id input = do
  invoice ← load_invoice ctx.org_id invoice_id
  amount_cents ← checked_amount ctx invoice input
  found ← gets (get_account_by_subtype ctx.org_id "accounts_receivable")
  ar ← some_or_raise found chart_not_seeded
  deposit_account ← resolve_deposit_account ctx.org_id input.deposit_account_id
  row ← insert_payment ctx input invoice amount_cents deposit_account.id ar.id
  summary ← recompute_invoice ctx.org_id invoice
  write_audit_log (audit_row ctx row.id "payment")
  pure (row, summary)

unfoldable pub find_application : RowId → RowId → Database → Option PaymentApplicationRow
find_application org payment_id db =
    first (λ a. a.org_id == org && a.payment_txn_id == payment_id) db.payment_applications

unfoldable pub reverse_application : PaymentContext → TransactionRow → RowId → Tx TransactionRow
reverse_application ctx row invoice_id = do
  invoice ← load_invoice ctx.org_id invoice_id
  zero_out_ledger (record {
    org_id = ctx.org_id;
    transaction_id = row.id;
    entry_date = row.txn_date;
    contact_id = row.contact_id;
  })
  delete_applications (λ a. a.org_id == ctx.org_id && a.payment_txn_id == row.id)
  recompute_invoice ctx.org_id invoice

unfoldable pub void_payment : PaymentContext → RowId → Tx (TransactionRow × TransactionRow)
void_payment ctx payment_id = do
  row ← load_payment false ctx.org_id payment_id
  raise_if (is_voided row.status) invalid_state
  found ← gets (find_application ctx.org_id payment_id)
  application ← some_or_raise found failed_write
  summary ← reverse_application ctx row application.invoice_txn_id
  changed ←
      update_transactions (λ t. t.org_id == ctx.org_id && t.id == payment_id)
        (λ now t. record t { status = voided; version = row.version + 1; updated_at = now })
  voided_row ← some_or_raise changed failed_write
  write_audit_log (audit_row ctx payment_id "void")
  pure (voided_row, summary)

pub data DeletePaymentResult : Type 0 where
  deleted : TransactionRow → Option TransactionRow → DeletePaymentResult
  skipped : TransactionRow → DeletePaymentResult

unfoldable pub reverse_if_applied :
    PaymentContext → TransactionRow → Option PaymentApplicationRow → Tx (Option TransactionRow)
reverse_if_applied ctx row none = pure none
reverse_if_applied ctx row (some application) = do
  summary ← reverse_application ctx row application.invoice_txn_id
  pure (some summary)

unfoldable pub delete_live_payment :
    PaymentContext → RowId → TransactionRow → Tx DeletePaymentResult
delete_live_payment ctx payment_id row = do
  application ← gets (find_application ctx.org_id payment_id)
  summary ← reverse_if_applied ctx row application
  changed ←
      update_transactions (λ t. t.org_id == ctx.org_id && t.id == payment_id)
        (λ now t. record t { deleted_at = some now; version = row.version + 1; updated_at = now })
  deleted_row ← some_or_raise changed failed_write
  write_audit_log (audit_row ctx payment_id "delete")
  pure (deleted deleted_row summary)

abbrev pub delete_loaded :
    PaymentContext → RowId → TransactionRow → Option ℕ → Tx DeletePaymentResult
delete_loaded ctx payment_id row none = delete_live_payment ctx payment_id row
delete_loaded ctx payment_id row (some _) = pure (skipped row)

unfoldable pub delete_payment : PaymentContext → RowId → Tx DeletePaymentResult
delete_payment ctx payment_id = do
  row ← load_payment true ctx.org_id payment_id
  delete_loaded ctx payment_id row row.deleted_at

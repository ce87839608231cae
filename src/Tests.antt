-- ===== src/Tests.antt =====
-- Runs of the model on a small shop: an organisation 1 with a customer 5, the accounts 10 (receivable),
-- 11 (income) and 12 (undeposited funds), and the open invoice 100 for 100.00, posted and linked.
mod Posting
mod Billing
mod Syncing
mod Inbounding
mod Pushing
mod Sweeping
mod Resolving
use invoicing_platform.Prelude.{
  ℕ, if◌then◌else◌, ◌+◌, ◌*◌, ◌≡◌, ◌≢◌, ◌↔◌, ◌<◌, ◌≤◌, ◌⊎◌, refl, inl, inr, ◌&&◌, String, Bool,
  true, false, Option, none, some, List, [], ◌∷◌, ◌++◌, arith, ◌==◌, Bool-cases, ltb, All, first,
}
use invoicing_platform.Prelude.Int.{ℤ, pos, negsuc, pos_part, ◌+ℤ◌, ◌≤ℤ◌, ◌<ℤ◌}
use invoicing_platform.Money.{Text, text, to_cents, format_cents}
use invoicing_platform.Money.RoundTrip.{to_cents-format_cents}
use invoicing_platform.Database.{
  RowId, ContactRow, AccountRow, asset, income, customer_invoice, opened, partially_paid, paid,
  voided, transaction, synced, qbo_invoice, TransactionRow, TransactionLineRow, LedgerEntryRow,
  SyncLinkRow, Database, Result, ok, err, Tx, transact, invalid_state, not_found, unbalanced,
}
use invoicing_platform.Ledger.Balance.{IsBalanced}
use invoicing_platform.Invoices.Lines.{JsNumber}
use invoicing_platform.Invoices.{
  InvoiceContext, CreateInvoiceInput, UpdateInvoiceInput, create_invoice, update_invoice,
  void_invoice, delete_invoice,
}
use invoicing_platform.Invoices.Books.{invoices-IsBalanced}
use invoicing_platform.Payments.{
  PaymentContext, RecordPaymentInput, record_payment, void_payment, delete_payment,
}
use invoicing_platform.Payments.Books.{payments-IsBalanced}

abbrev pub invoice : TransactionRow
invoice = record {
  id = 100;
  org_id = 1;
  type = customer_invoice;
  status = opened;
  contact_id = some 5;
  doc_number = some "INV-1";
  txn_date = "2026-01-05";
  due_date = none;
  memo = none;
  subtotal = pos 10000;
  total = pos 10000;
  balance = pos 10000;
  version = 0;
  created_by = some 7;
  deleted_at = none;
  updated_at = 1000;
}

abbrev account_row : RowId → AccountRow
account_row id = record {
  id = id;
  org_id = 1;
  code = none;
  name = "account";
  type = if id == 11 then income else asset;
  subtype =
      if id == 10
      then some "accounts_receivable"
      else if id == 11
      then some "sales_income"
      else some "undeposited_funds";
}

abbrev pub entry : RowId → RowId → ℤ → ℤ → LedgerEntryRow
entry id account debit credit = record {
  id = id;
  org_id = 1;
  transaction_id = 100;
  account_id = account;
  contact_id = some 5;
  entry_date = "2026-01-05";
  debit = debit;
  credit = credit;
}

abbrev pub link : SyncLinkRow
link = record {
  id = 300;
  org_id = 1;
  entity_type = transaction;
  local_id = 100;
  qbo_type = qbo_invoice;
  qbo_id = some 77;
  state = synced;
  local_version = some 0;
  qbo_sync_token = some (b'3' ∷ []);
  last_synced_at = some 1000;
  conflict_detected_at = none;
  retry_count = 0;
  next_retry_at = none;
  last_error = none;
  updated_at = 1000;
}

abbrev pub shop : Database
shop = record {
  contacts =
      record {
        id = 5;
        org_id = 1;
        display_name = "Ada";
        email = none;
        phone = none;
        is_customer = true;
      }
      ∷ [];
  accounts = account_row 10 ∷ account_row 11 ∷ account_row 12 ∷ [];
  items = [];
  transactions = invoice ∷ [];
  transaction_lines = [];
  ledger_entries = entry 200 10 (pos 10000) (pos 0) ∷ entry 201 11 (pos 0) (pos 10000) ∷ [];
  payment_applications = [];
  sync_links = link ∷ [];
  sync_audit_logs = [];
  processed_events = [];
  next_id = 400;
  now = 2000;
}

pub shop-IsBalanced : IsBalanced shop
unfolding ◌+ℤ◌
shop-IsBalanced org txn = elim (Bool-cases (1 == org && 100 == txn)) [ inl e ↦ rw e | inr e ↦ rw e ]

-- Quantities that are whole numbers.
abbrev pub whole : JsNumber
whole = record { is_positive = λ q. ltb 0 q; round_product = λ q cents. pos (q * pos_part cents) }

abbrev pub order : CreateInvoiceInput
order = record {
  contact_id = 5;
  txn_date = "2026-02-01";
  due_date = none;
  memo = none;
  doc_number = none;
  lines =
      record {
        item_id = none;
        account_id = none;
        description = some "work";
        quantity = 3;
        unit_price = text (format_cents (pos 2500));
      }
      ∷ [];
}

abbrev pub no_change : UpdateInvoiceInput
no_change = record {
  contact_id = none;
  txn_date = none;
  due_date = none;
  memo = some "paid by card";
  doc_number = none;
  lines = none;
}

abbrev pub clerk : InvoiceContext
clerk = record { org_id = 1; user_id = 7 }

abbrev pub cashier : PaymentContext
cashier = record { org_id = 1; user_id = 7 }

abbrev pub half : RecordPaymentInput
half = record {
  amount = text (format_cents (pos 5000));
  txn_date = "2026-02-02";
  deposit_account_id = none;
  memo = none;
}

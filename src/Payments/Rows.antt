-- ===== src/Payments/Rows.antt =====
-- apps/api/src/payments/service.ts: the inputs, the rows that are read and written, and the recompute
-- that the services share.
use invoicing_platform.Prelude.{
  ℕ, ◌+◌, String, Bool, true, false, ◌&&◌, ◌||◌, not, Option, none, some, List, [], ◌∷◌, ◌==◌,
  first, select, is_some,
}
use invoicing_platform.Prelude.Int.{ℤ, pos, ◌+ℤ◌}
use invoicing_platform.Money.{Amount}
use invoicing_platform.Database.{
  RowId, AccountRow, asset, TransactionType, customer_invoice, payment, TransactionStatus, opened,
  partially_paid, paid, voided, transaction, local, success, TransactionRow, PaymentApplicationRow,
  AuditLogRow, Database, not_found, invalid_deposit_account, chart_not_seeded, version_conflict, Tx,
  pure, gets, raise_if, some_or_raise, ◌>>=◌, ◌>>◌,
}
use invoicing_platform.Database.Statements.{update_transactions}
use invoicing_platform.Accounts.{get_account_by_subtype, find_account}
use invoicing_platform.Sync.Links.{bump_local_version}
use invoicing_platform.Payments.Status.{derive_invoice_status, remaining_balance}

pub record PaymentContext : Type 0 where
  pub org_id : RowId
  pub user_id : RowId

pub record RecordPaymentInput : Type 0 where
  pub amount : Amount
  pub txn_date : String
  pub deposit_account_id : Option RowId
  pub memo : Option String

abbrev pub is_invoice : TransactionType → Bool
is_invoice customer_invoice = true
is_invoice _ = false

abbrev pub is_payment : TransactionType → Bool
is_payment payment = true
is_payment _ = false

abbrev pub is_payable : TransactionStatus → Bool
is_payable opened = true
is_payable partially_paid = true
is_payable _ = false

abbrev pub is_voided : TransactionStatus → Bool
is_voided voided = true
is_voided _ = false

abbrev is_asset : AccountRow → Bool
is_asset a = elim a.type [ asset ↦ true | _ ↦ false ]

-- The row that `invoiceRowQuery` selects.
unfoldable pub find_invoice : RowId → RowId → Database → Option TransactionRow
find_invoice org id db =
    first (λ t. t.org_id == org && t.id == id && (is_invoice t.type && not (is_some t.deleted_at)))
      db.transactions

unfoldable pub load_invoice : RowId → RowId → Tx TransactionRow
load_invoice org id = do row ← gets (find_invoice org id); some_or_raise row not_found

-- `includeDeleted` is the flag.
unfoldable pub load_payment : Bool → RowId → RowId → Tx TransactionRow
load_payment include_deleted org id = do
  row ← gets (λ db.
      first
        (λ t.
          t.org_id == org
          && t.id == id
          && (is_payment t.type && (include_deleted || not (is_some t.deleted_at))))
        db.transactions)
  some_or_raise row not_found

abbrev pub is_applied_to : RowId → RowId → PaymentApplicationRow → Bool
is_applied_to org invoice_id a = a.org_id == org && a.invoice_txn_id == invoice_id

abbrev pub sum_amounts : List PaymentApplicationRow → ℤ
sum_amounts [] = pos 0
sum_amounts (a ∷ rest) = a.amount +ℤ sum_amounts rest

unfoldable pub sum_applied_cents : RowId → RowId → Database → ℤ
sum_applied_cents org invoice_id db =
    sum_amounts (select (is_applied_to org invoice_id) db.payment_applications)

unfoldable pub resolve_deposit_account : RowId → Option RowId → Tx AccountRow
resolve_deposit_account org none = do
  undeposited ← gets (get_account_by_subtype org "undeposited_funds")
  some_or_raise undeposited chart_not_seeded
resolve_deposit_account org (some id) = do
  found ← gets (find_account org id)
  account ← some_or_raise found not_found
  raise_if (not (is_asset account)) invalid_deposit_account
  pure account

-- What the recompute writes; the total is that of the row that was read.
abbrev pub recomputed : TransactionRow → ℤ → ℕ → TransactionRow → TransactionRow
recomputed invoice paid_cents now t = record t {
  status = derive_invoice_status invoice.total paid_cents;
  balance = remaining_balance invoice.total paid_cents;
  version = t.version + 1;
  updated_at = now;
}

unfoldable pub recompute_invoice : RowId → TransactionRow → Tx TransactionRow
recompute_invoice org invoice = do
  paid_cents ← gets (sum_applied_cents org invoice.id)
  found ←
      update_transactions
        (λ t. t.org_id == org && t.id == invoice.id && t.version == invoice.version)
        (recomputed invoice paid_cents)
  updated ← some_or_raise found version_conflict
  bump_local_version org transaction invoice.id
  pure updated

abbrev pub audit_row : PaymentContext → RowId → String → AuditLogRow
audit_row ctx id action = record {
  org_id = ctx.org_id;
  user_id = some ctx.user_id;
  entity_type = "transaction";
  local_id = some id;
  action = action;
  direction = local;
  outcome = success;
}

abbrev pub payment_row :
    PaymentContext → RecordPaymentInput → TransactionRow → ℤ → ℕ → ℕ → TransactionRow
payment_row ctx input invoice amount_cents id now = record {
  id = id;
  org_id = ctx.org_id;
  type = payment;
  status = paid;
  contact_id = invoice.contact_id;
  doc_number = none;
  txn_date = input.txn_date;
  due_date = none;
  memo = input.memo;
  subtotal = amount_cents;
  total = amount_cents;
  balance = pos 0;
  version = 0;
  created_by = some ctx.user_id;
  deleted_at = none;
  updated_at = now;
}

-- ===== src/Tests/Billing.antt =====
-- Invoices and payments on the small shop.
use invoicing_platform.Prelude.{
  Bool, ◌≡◌, ◌↔◌, refl, true, false, none, some, List, [], ◌∷◌, ◌++◌, arith,
}
use invoicing_platform.Prelude.Int.{ℤ, pos, ◌-ℤ◌, ◌+ℤ◌, ◌≤ℤ◌, ◌<ℤ◌}
use invoicing_platform.Money.{to_cents}
use invoicing_platform.Money.RoundTrip.{to_cents-format_cents}
use invoicing_platform.Database.{
  RowId, opened, partially_paid, paid, voided, TransactionRow, TransactionLineRow, Database, Result,
  ok, err, transact, invalid_state, not_found,
}
use invoicing_platform.Accounts.{get_account_by_subtype}
use invoicing_platform.Database.Statements.{
  insert_transaction, insert_application, update_transactions, write_audit_log,
}
use invoicing_platform.Sync.Links.{bump_local_version}
use invoicing_platform.Ledger.{insert_entries, PostLedgerInput, entries_of, post_ledger}
use invoicing_platform.Ledger.Sums.{account_net}
use invoicing_platform.Ledger.Post.{post_ledger-ok}
use invoicing_platform.Ledger.Balance.{IsBalanced}
use invoicing_platform.Invoices.Lines.{JsNumber}
use invoicing_platform.Invoices.{
  UpdateInvoiceInput, deleted, skipped, create_invoice, update_invoice, void_invoice,
  delete_invoice,
}
use invoicing_platform.Invoices.Books.{invoices-IsBalanced}
use invoicing_platform.Invoices.Voiding.{void_invoice-clears}
use invoicing_platform.Invoices.Deleting.{delete_invoice-hides}
use invoicing_platform.Payments.{
  RecordPaymentInput, find_invoice, load_invoice, checked_amount, resolve_deposit_account,
  insert_payment, recompute_invoice, payment_row, is_payable, sum_applied_cents, record_payment,
  void_payment, delete_payment,
}
use invoicing_platform.Payments.Books.{payments-IsBalanced}
use invoicing_platform.Payments.Applied.{IsSettled}
use invoicing_platform.Payments.Closing.{record_payment-closes}
use invoicing_platform.Payments.Recording.{record_payment-settles}
use invoicing_platform.Payments.Status.{
  derive_invoice_status, remaining_balance, derive_invoice_status-balance, remaining_balance-bounds,
}
use invoicing_platform.Payments.{
  audit_row, load_payment, delete_live_payment, find_application, reverse_if_applied,
  deleted as deleted_once,
}
use invoicing_platform.Payments.Reading.{get_payment, delete_payment-hides}
use invoicing_platform.Tests.Posting.{posting, parsed, parsed_lines}
use invoicing_platform.Tests.{
  invoice, shop, shop-IsBalanced, whole, order, no_change, clerk, cashier, half,
}

invoices-IsBalanced_example :
    IsBalanced (transact (create_invoice whole clerk order) shop).1
    × IsBalanced (transact (update_invoice whole clerk 100 no_change) shop).1
    × IsBalanced (transact (void_invoice clerk 100) shop).1
    × IsBalanced (transact (delete_invoice clerk 100) shop).1
invoices-IsBalanced_example =
    invoices-IsBalanced whole clerk 100 order no_change shop shop-IsBalanced

payments-IsBalanced_example :
    IsBalanced (transact (record_payment cashier 100 half) shop).1
    × IsBalanced (transact (void_payment cashier 100) shop).1
    × IsBalanced (transact (delete_payment cashier 100) shop).1
payments-IsBalanced_example = payments-IsBalanced cashier 100 half shop shop-IsBalanced

void_invoice-clears_example :
    (row : TransactionRow) × (lines : List TransactionLineRow) × (out : Database) × (void_invoice
        clerk 100 shop
      ≡ ok ((row, lines), out))
    × (row.status ≡ voided)
    × (row.balance ≡ pos 0)
    × (row.version ≡ 1)
    × ((a : RowId) → account_net a (entries_of 1 100 out) ≡ pos 0)
    × (void_invoice clerk 100 out ≡ err invalid_state)
void_invoice-clears_example =
    void_invoice-clears clerk 100 shop invoice refl refl (shop-IsBalanced 1 100)

delete_invoice-hides_example :
    (row : TransactionRow) × (lines : List TransactionLineRow) × (out : Database) × (delete_invoice
        clerk 100 shop
      ≡ ok (deleted row lines, out))
    × (row.deleted_at ≡ some 2000)
    × (row.balance ≡ pos 0)
    × (row.version ≡ 1)
    × ((a : RowId) → account_net a (entries_of 1 100 out) ≡ pos 0)
    × ((js : JsNumber) (patch : UpdateInvoiceInput)
        → update_invoice js clerk 100 patch out ≡ err not_found)
    × (void_invoice clerk 100 out ≡ err not_found)
    × ((user : RowId) (input : RecordPaymentInput)
        → record_payment (record { org_id = 1; user_id = user }) 100 input out ≡ err not_found)
    × (again : TransactionRow) × (delete_invoice clerk 100 out ≡ ok (skipped again lines, out))
delete_invoice-hides_example =
    delete_invoice-hides clerk 100 shop invoice refl refl refl (shop-IsBalanced 1 100)

derive_invoice_status-balance_example :
    ((derive_invoice_status (pos 10000) (pos 5000) ≡ opened)
      ↔ (remaining_balance (pos 10000) (pos 5000) ≡ pos 10000))
    × ((derive_invoice_status (pos 10000) (pos 5000) ≡ paid)
        ↔ (remaining_balance (pos 10000) (pos 5000) ≡ pos 0))
    × ((derive_invoice_status (pos 10000) (pos 5000) ≡ partially_paid) ↔ (
        (pos 0 <ℤ remaining_balance (pos 10000) (pos 5000))
        × (remaining_balance (pos 10000) (pos 5000) <ℤ pos 10000)))
derive_invoice_status-balance_example =
    derive_invoice_status-balance (pos 10000) (pos 5000) (omega arith) (omega arith) (omega arith)

remaining_balance-bounds_example :
    (pos 0 ≤ℤ remaining_balance (pos 10000) (pos 5000))
    × (remaining_balance (pos 10000) (pos 5000) ≤ℤ pos 10000)
remaining_balance-bounds_example =
    remaining_balance-bounds (pos 10000) (pos 5000) (omega arith) (omega arith)

-- The shop once half of the invoice is paid.
abbrev paid_posting : PostLedgerInput
paid_posting = posting 400 (some 5) 12 10 (pos 5000) (pos 5000)

-- The database in which the posting of the payment is made.
abbrev before_posting : Database
before_posting = record shop {
  transactions = shop.transactions ++ (payment_row cashier half invoice (pos 5000) 400 2000 ∷ []);
  payment_applications =
      record { id = 401; org_id = 1; payment_txn_id = 400; invoice_txn_id = 100; amount = pos 5000 }
      ∷ [];
  next_id = 402;
}

posted_payment :
    post_ledger paid_posting before_posting
    ≡ insert_entries paid_posting (parsed (some 5) 12 10 (pos 5000) (pos 5000)) before_posting
unfolding ◌+ℤ◌
posted_payment =
    post_ledger-ok paid_posting before_posting (parsed (some 5) 12 10 (pos 5000) (pos 5000)) refl
      (parsed_lines 400 (some 5) 12 10 (pos 5000) (pos 5000) refl refl) refl

abbrev is_ok {ℓ} : {A : Type ℓ} → Result A → Bool
is_ok (ok a) = true
is_ok (err e) = false

ok_of :
    (r : Result ((TransactionRow × TransactionRow) × Database))
    → is_ok r ≡ true
    → (row : TransactionRow) × (summary : TransactionRow) × (out : Database) × (r
        ≡ ok ((row, summary), out))
ok_of (ok ((row, summary), out)) h = (row, summary, out, refl)
ok_of (err e) h = absurd (cc)

recorded :
    (row : TransactionRow) × (summary : TransactionRow) × (out : Database) × (record_payment cashier
        100 half shop
      ≡ ok ((row, summary), out))
unfolding ◌+ℤ◌ ◌-ℤ◌ record_payment load_invoice find_invoice checked_amount sum_applied_cents
    get_account_by_subtype resolve_deposit_account insert_payment insert_transaction
    insert_application recompute_invoice update_transactions bump_local_version write_audit_log
    insert_entries
recorded =
    ok_of (record_payment cashier 100 half shop)
      (rw (to_cents-format_cents (pos 5000), posted_payment))

record_payment-settles_example :
    (found : TransactionRow) × (cents : ℤ) × (find_invoice 1 100 shop ≡ some found)
    × (is_payable found.status ≡ true)
    × (to_cents half.amount ≡ some cents)
    × (pos 0 <ℤ cents)
    × (sum_applied_cents 1 found.id recorded.2 ≡ sum_applied_cents 1 found.id shop +ℤ cents)
    × (sum_applied_cents 1 found.id recorded.2 ≤ℤ found.total)
    × IsSettled found (sum_applied_cents 1 found.id recorded.2) recorded.1
record_payment-settles_example =
    record_payment-settles cashier 100 half shop recorded.2 recorded.0 recorded.1 recorded.3

-- The shop with a payment that has been voided.
abbrev voided_payment : TransactionRow
voided_payment = record (payment_row cashier half invoice (pos 5000) 350 1500) { status = voided }

abbrev refunded_shop : Database
refunded_shop = record shop { transactions = invoice ∷ voided_payment ∷ [] }

abbrev deleted_payment : TransactionRow
deleted_payment = record voided_payment { deleted_at = some 2000; version = 1; updated_at = 2000 }

abbrev tidy_shop : Database
tidy_shop = record refunded_shop {
  transactions = invoice ∷ deleted_payment ∷ [];
  sync_audit_logs = audit_row cashier 350 "delete" ∷ [];
}

deleted_350 :
    delete_payment cashier 350 refunded_shop ≡ ok (deleted_once deleted_payment none, tidy_shop)
unfolding delete_payment load_payment delete_live_payment find_application reverse_if_applied
    update_transactions write_audit_log
deleted_350 = refl

delete_payment-hides_example :
    (get_payment 1 350 tidy_shop ≡ none) × (void_payment cashier 350 tidy_shop ≡ err not_found)
delete_payment-hides_example =
    delete_payment-hides cashier 350 refunded_shop tidy_shop deleted_payment none deleted_350

record_payment-closes_example :
    (void_invoice (record { org_id = 1; user_id = 7 }) 100 recorded.2 ≡ err invalid_state)
    × (update_invoice whole (record { org_id = 1; user_id = 7 }) 100 no_change recorded.2
        ≡ err invalid_state)
unfolding sum_applied_cents
record_payment-closes_example =
    record_payment-closes cashier 100 half shop recorded.2 recorded.0 recorded.1 whole no_change
      (omega arith) recorded.3

-- ===== src/Payments/Books.antt =====
-- The payment operations keep the books balanced.
use invoicing_platform.Prelude.{ℕ, Bool, Option, none, some}
use invoicing_platform.Prelude.Int.{ℤ}
use invoicing_platform.Database.{RowId, TransactionRow, PaymentApplicationRow, Database, transact}
use invoicing_platform.Database.Keeps.{Keeps, keeps_rules, transact-Keeps}
use invoicing_platform.Ledger.Balance.{IsBalanced}
use invoicing_platform.Ledger.Statements.{statement_rules}
use invoicing_platform.Payments.{
  PaymentContext, RecordPaymentInput, load_invoice, load_payment, resolve_deposit_account,
  recompute_invoice, checked_amount, insert_payment, record_payment, reverse_application,
  void_payment, reverse_if_applied, delete_live_payment, delete_loaded, delete_payment,
}

load_invoice-Keeps : (org id : RowId) → Keeps IsBalanced (load_invoice org id)
unfolding load_invoice
load_invoice-Keeps org id = search keeps_rules

load_payment-Keeps : (d : Bool) (org id : RowId) → Keeps IsBalanced (load_payment d org id)
unfolding load_payment
load_payment-Keeps d org id = search keeps_rules

resolve_deposit_account-Keeps :
    (org : RowId) (id : Option RowId) → Keeps IsBalanced (resolve_deposit_account org id)
unfolding resolve_deposit_account
resolve_deposit_account-Keeps org none = search keeps_rules
resolve_deposit_account-Keeps org (some id) = search keeps_rules

pub recompute_invoice-Keeps :
    (org : RowId) (invoice : TransactionRow) → Keeps IsBalanced (recompute_invoice org invoice)
unfolding recompute_invoice
recompute_invoice-Keeps org invoice = search (keeps_rules, statement_rules)

checked_amount-Keeps :
    (ctx : PaymentContext) (invoice : TransactionRow) (input : RecordPaymentInput)
    → Keeps IsBalanced (checked_amount ctx invoice input)
unfolding checked_amount
checked_amount-Keeps ctx invoice input = search keeps_rules depth 12

insert_payment-Keeps :
    (ctx : PaymentContext) (input : RecordPaymentInput) (invoice : TransactionRow) (cents : ℤ)
    (deposit ar : RowId)
    → Keeps IsBalanced (insert_payment ctx input invoice cents deposit ar)
unfolding insert_payment
insert_payment-Keeps ctx input invoice cents deposit ar = search (keeps_rules, statement_rules)

record_payment-Keeps :
    (ctx : PaymentContext) (id : RowId) (input : RecordPaymentInput)
    → Keeps IsBalanced (record_payment ctx id input)
unfolding record_payment
record_payment-Keeps ctx id input =
    search
      (
        keeps_rules, statement_rules, load_invoice-Keeps, checked_amount-Keeps,
        resolve_deposit_account-Keeps, insert_payment-Keeps, recompute_invoice-Keeps,
      )
      depth 12

reverse_application-Keeps :
    (ctx : PaymentContext) (row : TransactionRow) (id : RowId)
    → Keeps IsBalanced (reverse_application ctx row id)
unfolding reverse_application
reverse_application-Keeps ctx row id =
    search (keeps_rules, statement_rules, load_invoice-Keeps, recompute_invoice-Keeps)

void_payment-Keeps : (ctx : PaymentContext) (id : RowId) → Keeps IsBalanced (void_payment ctx id)
unfolding void_payment
void_payment-Keeps ctx id =
    search (keeps_rules, statement_rules, load_payment-Keeps, reverse_application-Keeps) depth 12

reverse_if_applied-Keeps :
    (ctx : PaymentContext) (row : TransactionRow) (a : Option PaymentApplicationRow)
    → Keeps IsBalanced (reverse_if_applied ctx row a)
unfolding reverse_if_applied
reverse_if_applied-Keeps ctx row none = search keeps_rules
reverse_if_applied-Keeps ctx row (some a) = search (keeps_rules, reverse_application-Keeps)

delete_loaded-Keeps :
    (ctx : PaymentContext) (id : RowId) (row : TransactionRow) (d : Option ℕ)
    → Keeps IsBalanced (delete_loaded ctx id row d)
unfolding delete_live_payment
delete_loaded-Keeps ctx id row none =
    search (keeps_rules, statement_rules, reverse_if_applied-Keeps) depth 12
delete_loaded-Keeps ctx id row (some n) = search keeps_rules

delete_payment-Keeps :
    (ctx : PaymentContext) (id : RowId) → Keeps IsBalanced (delete_payment ctx id)
unfolding delete_payment
delete_payment-Keeps ctx id = search (keeps_rules, load_payment-Keeps, delete_loaded-Keeps)

-- From books in which debits equal credits in every transaction, recording a payment, voiding one and
-- deleting one each leave such books, whether they go through or throw.
pub payments-IsBalanced :
    (ctx : PaymentContext) (id : RowId) (input : RecordPaymentInput) (db : Database)
    → IsBalanced db
    → IsBalanced (transact (record_payment ctx id input) db).1
      × IsBalanced (transact (void_payment ctx id) db).1
      × IsBalanced (transact (delete_payment ctx id) db).1
payments-IsBalanced ctx id input db h = (
  transact-Keeps IsBalanced (record_payment ctx id input) db (record_payment-Keeps ctx id input) h,
  transact-Keeps IsBalanced (void_payment ctx id) db (void_payment-Keeps ctx id) h,
  transact-Keeps IsBalanced (delete_payment ctx id) db (delete_payment-Keeps ctx id) h,
)

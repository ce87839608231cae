-- ===== src/Invoices/Books.antt =====
-- The invoice operations keep the books balanced.
use invoicing_platform.Prelude.{ℕ, suc, Bool, Option, none, some, List, [], ◌∷◌}
use invoicing_platform.Database.{RowId, TransactionRow, TransactionLineRow, Database, transact}
use invoicing_platform.Database.Keeps.{Keeps, Keeps-bind, Keeps-pure, keeps_rules, transact-Keeps}
use invoicing_platform.Ledger.Balance.{IsBalanced}
use invoicing_platform.Ledger.Statements.{statement_rules}
use invoicing_platform.Invoices.Lines.{
  JsNumber, InvoiceLineInput, ResolvedLine, require_invoice_accounts, line_account, resolve_line,
  resolve_from, resolve_lines,
}
use invoicing_platform.Invoices.{
  InvoiceContext, CreateInvoiceInput, UpdateInvoiceInput, require_customer_contact,
  load_invoice_row, insert_transaction_lines, update_versioned_invoice, insert_customer_invoice,
  create_invoice, patched_contact, patched_lines, update_invoice, void_invoice, delete_live_invoice,
  delete_loaded, delete_invoice,
}

require_customer_contact-Keeps :
    (org id : RowId) → Keeps IsBalanced (require_customer_contact org id)
unfolding require_customer_contact
require_customer_contact-Keeps org id = search keeps_rules depth 8

load_invoice_row-Keeps : (d : Bool) (org id : RowId) → Keeps IsBalanced (load_invoice_row d org id)
unfolding load_invoice_row
load_invoice_row-Keeps d org id = search keeps_rules

pub insert_transaction_lines-Keeps :
    (org id : RowId) (lines : List ResolvedLine)
    → Keeps IsBalanced (insert_transaction_lines org id lines)
unfolding insert_transaction_lines
insert_transaction_lines-Keeps org id lines = search statement_rules

require_invoice_accounts-Keeps : (org : RowId) → Keeps IsBalanced (require_invoice_accounts org)
unfolding require_invoice_accounts
require_invoice_accounts-Keeps org = search keeps_rules depth 10

line_account-Keeps :
    (org income : RowId) (id : Option RowId) → Keeps IsBalanced (line_account org income id)
unfolding line_account
line_account-Keeps org income none = search keeps_rules
line_account-Keeps org income (some id) = search keeps_rules depth 8

update_versioned_invoice-Keeps :
    (org id : RowId) (version : ℕ) (set : ℕ → TransactionRow → TransactionRow)
    → Keeps IsBalanced (update_versioned_invoice org id version set)
unfolding update_versioned_invoice
update_versioned_invoice-Keeps org id version set = search (keeps_rules, statement_rules)

module _ (js : JsNumber) where
  resolve_line-Keeps :
      (org income : RowId) (index : ℕ) (line : InvoiceLineInput)
      → Keeps IsBalanced (resolve_line js org income index line)
  unfolding resolve_line
  resolve_line-Keeps org income index line = search (keeps_rules, line_account-Keeps) depth 12

  resolve_from-Keeps :
      (org income : RowId) (index : ℕ) (lines : List InvoiceLineInput)
      → Keeps IsBalanced (resolve_from js org income index lines)
  unfolding resolve_from
  resolve_from-Keeps org income index [] = search keeps_rules
  resolve_from-Keeps org income index (line ∷ lines) =
      Keeps-bind (resolve_line js org income index line) _
        (resolve_line-Keeps org income index line)
        (λ resolved.
          Keeps-bind (resolve_from js org income (suc index) lines) _
            (resolve_from-Keeps org income (suc index) lines)
            (λ rest. Keeps-pure (resolved ∷ rest)))

  resolve_lines-Keeps :
      (org income : RowId) (lines : List InvoiceLineInput)
      → Keeps IsBalanced (resolve_lines js org income lines)
  unfolding resolve_lines
  resolve_lines-Keeps org income [] = search keeps_rules
  resolve_lines-Keeps org income (line ∷ lines) = resolve_from-Keeps org income 0 (line ∷ lines)

  pub insert_customer_invoice-Keeps :
      (org : RowId) (input : CreateInvoiceInput) (user : Option RowId)
      → Keeps IsBalanced (insert_customer_invoice js org input user)
  unfolding insert_customer_invoice
  insert_customer_invoice-Keeps org input user =
      search
        (
          keeps_rules, statement_rules, require_invoice_accounts-Keeps, resolve_lines-Keeps,
          insert_transaction_lines-Keeps,
        )
        depth 12

  create_invoice-Keeps :
      (ctx : InvoiceContext) (input : CreateInvoiceInput)
      → Keeps IsBalanced (create_invoice js ctx input)
  unfolding create_invoice
  create_invoice-Keeps ctx input =
      search
        (
          keeps_rules, statement_rules, require_customer_contact-Keeps,
          insert_customer_invoice-Keeps,
        )
        depth 10

  patched_contact-Keeps :
      (org : RowId) (patch existing : Option RowId)
      → Keeps IsBalanced (patched_contact org patch existing)
  unfolding patched_contact
  patched_contact-Keeps org none existing = search keeps_rules
  patched_contact-Keeps org (some id) none = search (keeps_rules, require_customer_contact-Keeps)
  patched_contact-Keeps org (some id) (some old) =
      search (keeps_rules, require_customer_contact-Keeps)

  patched_lines-Keeps :
      (org id income : RowId) (lines : Option (List InvoiceLineInput))
      → Keeps IsBalanced (patched_lines js org id income lines)
  unfolding patched_lines
  patched_lines-Keeps org id income none = search keeps_rules
  patched_lines-Keeps org id income (some lines) =
      search (keeps_rules, statement_rules, resolve_lines-Keeps, insert_transaction_lines-Keeps)
        depth 10

  update_invoice-Keeps :
      (ctx : InvoiceContext) (id : RowId) (patch : UpdateInvoiceInput)
      → Keeps IsBalanced (update_invoice js ctx id patch)
  unfolding update_invoice
  update_invoice-Keeps ctx id patch =
      search
        (
          keeps_rules, statement_rules, load_invoice_row-Keeps, patched_contact-Keeps,
          require_invoice_accounts-Keeps, patched_lines-Keeps, update_versioned_invoice-Keeps,
        )
        depth 20

void_invoice-Keeps : (ctx : InvoiceContext) (id : RowId) → Keeps IsBalanced (void_invoice ctx id)
unfolding void_invoice
void_invoice-Keeps ctx id =
    search (keeps_rules, statement_rules, load_invoice_row-Keeps, update_versioned_invoice-Keeps)
      depth 14

delete_loaded-Keeps :
    (ctx : InvoiceContext) (id : RowId) (row : TransactionRow) (lines : List TransactionLineRow)
    (d : Option ℕ)
    → Keeps IsBalanced (delete_loaded ctx id row lines d)
unfolding delete_live_invoice
delete_loaded-Keeps ctx id row lines none = search (keeps_rules, statement_rules) depth 12
delete_loaded-Keeps ctx id row lines (some n) = search keeps_rules

delete_invoice-Keeps :
    (ctx : InvoiceContext) (id : RowId) → Keeps IsBalanced (delete_invoice ctx id)
unfolding delete_invoice
delete_invoice-Keeps ctx id =
    search (keeps_rules, load_invoice_row-Keeps, delete_loaded-Keeps) depth 8

-- From books in which debits equal credits in every transaction, creating, editing, voiding and
-- deleting an invoice each leave such books, whether they go through or throw, and whatever the
-- arithmetic of JS numbers does.
pub invoices-IsBalanced :
    (js : JsNumber) (ctx : InvoiceContext) (id : RowId) (input : CreateInvoiceInput)
    (patch : UpdateInvoiceInput) (db : Database)
    → IsBalanced db
    → IsBalanced (transact (create_invoice js ctx input) db).1
      × IsBalanced (transact (update_invoice js ctx id patch) db).1
      × IsBalanced (transact (void_invoice ctx id) db).1
      × IsBalanced (transact (delete_invoice ctx id) db).1
invoices-IsBalanced js ctx id input patch db h = (
  transact-Keeps IsBalanced (create_invoice js ctx input) db (create_invoice-Keeps js ctx input) h,
  transact-Keeps IsBalanced (update_invoice js ctx id patch) db
      (update_invoice-Keeps js ctx id patch) h,
  transact-Keeps IsBalanced (void_invoice ctx id) db (void_invoice-Keeps ctx id) h,
  transact-Keeps IsBalanced (delete_invoice ctx id) db (delete_invoice-Keeps ctx id) h,
)

-- ===== src/Invoices/Refusing.antt =====
-- What the status of an invoice forbids.
use invoicing_platform.Prelude.{◌≡◌, false, some, first}
use invoicing_platform.Database.{RowId, TransactionRow, Database, err, invalid_state}
use invoicing_platform.Invoices.Lines.{JsNumber}
use invoicing_platform.Invoices.{
  InvoiceContext, UpdateInvoiceInput, is_invoice_row, load_invoice_row, is_open, update_invoice,
  void_invoice,
}

module _ (ctx : InvoiceContext) (id : RowId) (db : Database) (existing : TransactionRow)
    (found : first (is_invoice_row false ctx.org_id id) db.transactions ≡ some existing) where
  pub void_refused : is_open existing.status ≡ false → void_invoice ctx id db ≡ err invalid_state
  unfolding void_invoice load_invoice_row
  void_refused h = rw (found, h)

  pub update_refused :
      (js : JsNumber) (patch : UpdateInvoiceInput)
      → is_open existing.status ≡ false
      → update_invoice js ctx id patch db ≡ err invalid_state
  unfolding update_invoice load_invoice_row
  update_refused js patch h = rw (found, h)

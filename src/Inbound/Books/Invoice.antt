-- ===== src/Inbound/Books/Invoice.antt =====
-- An inbound change of a linked invoice keeps the books balanced.
use invoicing_platform.Prelude.{List, [], ◌∷◌}
use invoicing_platform.Prelude.Int.{ℤ}
use invoicing_platform.Database.{RowId, SyncLinkRow, TransactionRow, gets}
use invoicing_platform.Database.Keeps.{Keeps, Keeps-bind, Keeps-gets, keeps_rules}
use invoicing_platform.Ledger.Balance.{IsBalanced}
use invoicing_platform.Ledger.Statements.{statement_rules}
use invoicing_platform.Invoices.Lines.{ResolvedLine}
use invoicing_platform.Invoices.Books.{insert_transaction_lines-Keeps}
use invoicing_platform.Inbound.Body.{Json, JsRuntime}
use invoicing_platform.Inbound.Mappers.{QboInvoiceLinePatch}
use invoicing_platform.Inbound.Guards.{ApplyInboundEntityInput}
use invoicing_platform.Inbound.Invoice.{
  void_local_invoice_row, soft_delete_local_invoice_row, apply_invoice_metadata_patch, resync_lines,
  apply_invoice_line_resync, delete_linked_invoice, void_linked_invoice, update_with,
  update_linked_invoice, find_local_invoice, invoice_handlers, apply_linked_invoice,
}
use invoicing_platform.Inbound.Books.Guards.{raise_conflict-Keeps, finish-Keeps, apply_found-Keeps}

module _ (js : JsRuntime) (input : ApplyInboundEntityInput) where
  void_linked_invoice-Keeps :
      (existing : TransactionRow) (qbo : Json)
      → Keeps IsBalanced (void_linked_invoice js input existing qbo)
  unfolding void_linked_invoice void_local_invoice_row
  void_linked_invoice-Keeps existing qbo =
      search (keeps_rules, statement_rules, finish-Keeps) depth 12

  delete_linked_invoice-Keeps :
      (existing : TransactionRow) (qbo : Json)
      → Keeps IsBalanced (delete_linked_invoice js input existing qbo)
  unfolding delete_linked_invoice soft_delete_local_invoice_row
  delete_linked_invoice-Keeps existing qbo =
      search (keeps_rules, statement_rules, finish-Keeps) depth 12

  resync_lines-Keeps :
      (existing : TransactionRow) (qbo : Json) (ar : RowId) (lines : List ResolvedLine) (paid : ℤ)
      → Keeps IsBalanced (resync_lines js input existing qbo ar lines paid)
  unfolding resync_lines
  resync_lines-Keeps existing qbo ar lines paid =
      search (keeps_rules, statement_rules, insert_transaction_lines-Keeps, finish-Keeps) depth 12

  apply_invoice_line_resync-Keeps :
      (existing : TransactionRow) (qbo : Json) (lines : List (QboInvoiceLinePatch js))
      → Keeps IsBalanced (apply_invoice_line_resync js input existing qbo lines)
  unfolding apply_invoice_line_resync
  apply_invoice_line_resync-Keeps existing qbo lines =
      search (keeps_rules, raise_conflict-Keeps, resync_lines-Keeps) depth 16

  update_with-Keeps :
      (existing : TransactionRow) (qbo : Json) (lines : List (QboInvoiceLinePatch js))
      → Keeps IsBalanced (update_with js input existing qbo lines)
  unfolding apply_invoice_metadata_patch
  update_with-Keeps existing qbo [] = search (keeps_rules, statement_rules, finish-Keeps) depth 12
  update_with-Keeps existing qbo (l ∷ ls) = apply_invoice_line_resync-Keeps existing qbo (l ∷ ls)

  update_linked_invoice-Keeps :
      (existing : TransactionRow) (qbo : Json)
      → Keeps IsBalanced (update_linked_invoice js input existing qbo)
  unfolding update_linked_invoice
  update_linked_invoice-Keeps existing qbo = search (keeps_rules, update_with-Keeps)

  pub apply_linked_invoice-Keeps :
      (link : SyncLinkRow) (qbo : Json) → Keeps IsBalanced (apply_linked_invoice js input link qbo)
  unfolding apply_linked_invoice
  apply_linked_invoice-Keeps link qbo =
      Keeps-bind (gets (find_local_invoice input.org_id link.local_id)) _
        (Keeps-gets (find_local_invoice input.org_id link.local_id))
        (apply_found-Keeps js input link qbo (invoice_handlers js input qbo)
          (λ t. delete_linked_invoice-Keeps t qbo) (λ t. void_linked_invoice-Keeps t qbo)
          (λ t. update_linked_invoice-Keeps t qbo))

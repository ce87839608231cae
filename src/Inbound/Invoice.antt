-- ===== src/Inbound/Invoice.antt =====
-- apps/api/src/qbo/inbound-sync.ts: an inbound change of a linked invoice.
use invoicing_platform.Prelude.{
  ℕ, suc, ◌+◌, Bool, ◌&&◌, Option, none, some, List, [], ◌∷◌, ◌==◌, or_default, first,
  if◌then◌else◌,
}
use invoicing_platform.Prelude.Int.{ℤ, pos}
use invoicing_platform.Database.{
  RowId, voided, qbo_item, TransactionRow, ItemRow, SyncLinkRow, Database, failed_write, Tx, gets,
  lift, some_or_raise, ◌>>=◌, ◌>>◌,
}
use invoicing_platform.Database.Statements.{update_transactions, delete_lines}
use invoicing_platform.Accounts.{get_account_by_subtype}
use invoicing_platform.Ledger.{ZeroOutLedgerArgs, post_ledger, zero_out_ledger}
use invoicing_platform.Invoices.{is_line_of, insert_transaction_lines}
use invoicing_platform.Invoices.Lines.{ResolvedLine, total_amount_cents, build_invoice_postings}
use invoicing_platform.Payments.{sum_applied_cents, is_invoice}
use invoicing_platform.Payments.Status.{derive_invoice_status, remaining_balance}
use invoicing_platform.Sync.Conflict.{would_underflow_paid_amount}
use invoicing_platform.Sync.Links.{find_link_by_qbo}
use invoicing_platform.Inbound.Body.{Json, JsRuntime}
use invoicing_platform.Inbound.Mappers.{
  InvoiceMetadataPatch, qbo_invoice_to_local_patch, QboInvoiceLinePatch, qbo_invoice_to_local_lines,
}
use invoicing_platform.Inbound.Guards.{
  ApplyInboundEntityInput, InboundResult, updated, voided_locally, deleted_locally, raise_conflict,
  Handlers, apply_found, finish,
}

-- The row of a linked invoice, deleted or not.
unfoldable pub find_local_invoice : RowId → RowId → Database → Option TransactionRow
find_local_invoice org id db =
    first (λ t. t.org_id == org && t.id == id && is_invoice t.type) db.transactions

abbrev pub is_row_of : RowId → RowId → TransactionRow → Bool
is_row_of org id t = t.org_id == org && t.id == id

abbrev pub zero_out_of : RowId → TransactionRow → ZeroOutLedgerArgs
zero_out_of org existing = record {
  org_id = org;
  transaction_id = existing.id;
  entry_date = existing.txn_date;
  contact_id = existing.contact_id;
}

abbrev pub voided_row : TransactionRow → ℕ → TransactionRow → TransactionRow
voided_row existing now t = record t {
  status = voided;
  balance = pos 0;
  version = existing.version + 1;
  updated_at = now;
}

unfoldable pub void_local_invoice_row : RowId → TransactionRow → Tx (Option TransactionRow)
void_local_invoice_row org existing = do
  zero_out_ledger (zero_out_of org existing)
  update_transactions (is_row_of org existing.id) (voided_row existing)

abbrev pub deleted_row : TransactionRow → ℕ → TransactionRow → TransactionRow
deleted_row existing now t = record t {
  deleted_at = some now;
  balance = pos 0;
  version = existing.version + 1;
  updated_at = now;
}

unfoldable pub soft_delete_local_invoice_row : RowId → TransactionRow → Tx (Option TransactionRow)
soft_delete_local_invoice_row org existing = do
  zero_out_ledger (zero_out_of org existing)
  update_transactions (is_row_of org existing.id) (deleted_row existing)

abbrev pub patched_row : InvoiceMetadataPatch → TransactionRow → ℕ → TransactionRow → TransactionRow
patched_row patch existing now t = record t {
  doc_number = or_default patch.doc_number existing.doc_number;
  txn_date = or_default patch.txn_date existing.txn_date;
  due_date = or_default patch.due_date existing.due_date;
  memo = or_default patch.memo existing.memo;
  version = existing.version + 1;
  updated_at = now;
}

unfoldable pub apply_invoice_metadata_patch :
    RowId → TransactionRow → Json → Tx (Option TransactionRow)
apply_invoice_metadata_patch org existing qbo =
    update_transactions (is_row_of org existing.id)
      (patched_row (qbo_invoice_to_local_patch qbo) existing)

abbrev pub resynced_row :
    InvoiceMetadataPatch → TransactionRow → ℤ → ℤ → ℕ → TransactionRow → TransactionRow
resynced_row patch existing total_cents paid_cents now t =
    record (patched_row patch existing now t) {
      subtotal = total_cents;
      total = total_cents;
      balance = remaining_balance total_cents paid_cents;
      status = derive_invoice_status total_cents paid_cents;
    }

module _ (js : JsRuntime) where
  unfoldable pub find_item : RowId → RowId → Database → Option ItemRow
  find_item org id db = first (λ i. i.org_id == org && i.id == id) db.items

  abbrev income_of : Option ItemRow → RowId → RowId
  income_of none default_income = default_income
  income_of (some item) default_income = or_default item.income_account_id default_income

  -- The local item and the account of a line.
  abbrev item_and_account : RowId → RowId → Option SyncLinkRow → Database → Option RowId × RowId
  item_and_account org default_income none db = (none, default_income)
  item_and_account org default_income (some link) db =
      (some link.local_id, income_of (find_item org link.local_id db) default_income)

  abbrev link_of : RowId → Option RowId → Database → Option SyncLinkRow
  link_of org none db = none
  link_of org (some qbo_id) db = find_link_by_qbo org qbo_item qbo_id db

  unfoldable pub resolve_inbound_lines :
      RowId → ℕ → List (QboInvoiceLinePatch js) → RowId → Database → List ResolvedLine
  resolve_inbound_lines org index [] default_income db = []
  resolve_inbound_lines org index (line ∷ lines) default_income db =
      let found = item_and_account org default_income (link_of org line.item_qbo_id db) db in
      record {
        line_number = index + 1;
        item_id = found.0;
        account_id = found.1;
        description = line.description;
        quantity = line.quantity;
        unit_price = line.unit_price;
        amount_cents = line.amount_cents;
      }
      ∷ resolve_inbound_lines org (suc index) lines default_income db

  -- The writes of a line re-sync.
  unfoldable pub resync_lines :
      ApplyInboundEntityInput
      → TransactionRow
      → Json
      → RowId
      → List ResolvedLine
      → ℤ
      → Tx InboundResult
  resync_lines input existing qbo ar_id lines paid_cents = do
    delete_lines (is_line_of input.org_id existing.id)
    insert_transaction_lines input.org_id existing.id lines
    zero_out_ledger (zero_out_of input.org_id existing)
    post_ledger (record {
      org_id = input.org_id;
      transaction_id = existing.id;
      entry_date = existing.txn_date;
      lines = build_invoice_postings lines ar_id existing.contact_id;
    })
    update_transactions (is_row_of input.org_id existing.id) (
        resynced_row (qbo_invoice_to_local_patch qbo) existing (total_amount_cents lines)
          paid_cents)
    finish js input existing qbo "qbo.inbound.update" updated

  unfoldable pub apply_invoice_line_resync :
      ApplyInboundEntityInput
      → TransactionRow
      → Json
      → List (QboInvoiceLinePatch js)
      → Tx InboundResult
  apply_invoice_line_resync input existing qbo qbo_lines = do
    ar_found ← gets (get_account_by_subtype input.org_id "accounts_receivable")
    income_found ← gets (get_account_by_subtype input.org_id "sales_income")
    ar ← some_or_raise ar_found failed_write
    income ← some_or_raise income_found failed_write
    paid_cents ← gets (sum_applied_cents input.org_id existing.id)
    lines ← gets (resolve_inbound_lines input.org_id 0 qbo_lines income.id)
    if would_underflow_paid_amount (total_amount_cents lines) paid_cents
        then raise_conflict input existing.id "line_resync_would_underflow_paid_amount"
        else resync_lines input existing qbo ar.id lines paid_cents

  unfoldable pub delete_linked_invoice :
      ApplyInboundEntityInput → TransactionRow → Json → Tx InboundResult
  delete_linked_invoice input existing qbo = do
    soft_delete_local_invoice_row input.org_id existing
    finish js input existing qbo "qbo.inbound.delete" deleted_locally

  unfoldable pub void_linked_invoice :
      ApplyInboundEntityInput → TransactionRow → Json → Tx InboundResult
  void_linked_invoice input existing qbo = do
    void_local_invoice_row input.org_id existing
    finish js input existing qbo "qbo.inbound.void" voided_locally

  -- With lines they are synced again; without, only the metadata is patched.
  abbrev pub update_with :
      ApplyInboundEntityInput
      → TransactionRow
      → Json
      → List (QboInvoiceLinePatch js)
      → Tx InboundResult
  update_with input existing qbo [] = do
    apply_invoice_metadata_patch input.org_id existing qbo
    finish js input existing qbo "qbo.inbound.update" updated
  update_with input existing qbo (line ∷ lines) =
      apply_invoice_line_resync input existing qbo (line ∷ lines)

  unfoldable pub update_linked_invoice :
      ApplyInboundEntityInput → TransactionRow → Json → Tx InboundResult
  update_linked_invoice input existing qbo = do
    lines ← lift (qbo_invoice_to_local_lines js qbo)
    update_with input existing qbo lines

  abbrev pub invoice_handlers : ApplyInboundEntityInput → Json → Handlers
  invoice_handlers input qbo = record {
    deleted = λ existing. delete_linked_invoice input existing qbo;
    voided = λ existing. void_linked_invoice input existing qbo;
    patched = λ existing. update_linked_invoice input existing qbo;
  }

  unfoldable pub apply_linked_invoice :
      ApplyInboundEntityInput → SyncLinkRow → Json → Tx InboundResult
  apply_linked_invoice input link qbo = do
    existing ← gets (find_local_invoice input.org_id link.local_id)
    apply_found js input link qbo (invoice_handlers input qbo) existing

-- ===== src/Inbound/Payment.antt =====
-- apps/api/src/qbo/inbound-sync.ts: an inbound change of a linked payment, and the recompute of the
-- invoices that it was applied to.
use invoicing_platform.Prelude.{
  ℕ, ◌+◌, Bool, ◌&&◌, Option, none, some, List, [], ◌∷◌, ◌==◌, or_default, first, select,
}
use invoicing_platform.Database.{
  RowId, voided, TransactionRow, PaymentApplicationRow, SyncLinkRow, Database, Tx, pure, gets,
  ◌>>=◌, ◌>>◌,
}
use invoicing_platform.Database.Statements.{update_transactions, delete_applications}
use invoicing_platform.Ledger.{zero_out_ledger}
use invoicing_platform.Payments.{is_payment, recompute_invoice}
use invoicing_platform.Inbound.Body.{Json, JsRuntime}
use invoicing_platform.Inbound.Mappers.{PaymentMetadataPatch, qbo_payment_to_local_patch}
use invoicing_platform.Inbound.Guards.{
  ApplyInboundEntityInput, InboundResult, updated, voided_locally, deleted_locally, Handlers,
  apply_found, finish,
}
use invoicing_platform.Inbound.Invoice.{find_local_invoice, is_row_of, zero_out_of}

-- A local copy of `recomputeInvoice` that takes an invoice of any state, and none for granted.
abbrev pub recompute_found : RowId → Option TransactionRow → Tx Unit
recompute_found org none = pure tt
recompute_found org (some invoice) = recompute_invoice org invoice >> pure tt

unfoldable pub recompute_local_invoice_balance : RowId → RowId → Tx Unit
recompute_local_invoice_balance org invoice_id = do
  invoice ← gets (find_local_invoice org invoice_id)
  recompute_found org invoice

-- `for (const application of applications) await recomputeLocalInvoiceBalance(…)`
unfoldable pub recompute_all : RowId → List RowId → Tx Unit
recompute_all org [] = pure tt
recompute_all org (id ∷ ids) = recompute_local_invoice_balance org id >> recompute_all org ids

abbrev pub invoice_ids : List PaymentApplicationRow → List RowId
invoice_ids [] = []
invoice_ids (a ∷ rest) = a.invoice_txn_id ∷ invoice_ids rest

unfoldable pub find_local_payment : RowId → RowId → Database → Option TransactionRow
find_local_payment org id db =
    first (λ t. t.org_id == org && t.id == id && is_payment t.type) db.transactions

abbrev pub is_applied_from : RowId → RowId → PaymentApplicationRow → Bool
is_applied_from org payment_id a = a.org_id == org && a.payment_txn_id == payment_id

abbrev pub deleted_payment : TransactionRow → ℕ → TransactionRow → TransactionRow
deleted_payment existing now t = record t {
  deleted_at = some now;
  version = existing.version + 1;
  updated_at = now;
}

abbrev pub voided_payment : TransactionRow → ℕ → TransactionRow → TransactionRow
voided_payment existing now t = record t {
  status = voided;
  version = existing.version + 1;
  updated_at = now;
}

abbrev pub patched_payment :
    PaymentMetadataPatch → TransactionRow → ℕ → TransactionRow → TransactionRow
patched_payment patch existing now t = record t {
  txn_date = or_default patch.txn_date existing.txn_date;
  memo = or_default patch.memo existing.memo;
  version = existing.version + 1;
  updated_at = now;
}

-- What a void and a delete of a payment share: its ledger is zeroed out, its applications are removed,
-- its row is marked and its invoices are recomputed. Removing no application changes nothing, which is
-- what the source's test of `applications.length` comes to.
unfoldable pub reverse_linked_payment :
    RowId → TransactionRow → (ℕ → TransactionRow → TransactionRow) → Tx Unit
reverse_linked_payment org existing mark = do
  applications ← gets (λ db. select (is_applied_from org existing.id) db.payment_applications)
  zero_out_ledger (zero_out_of org existing)
  delete_applications (is_applied_from org existing.id)
  update_transactions (is_row_of org existing.id) mark
  recompute_all org (invoice_ids applications)

module _ (js : JsRuntime) where
  unfoldable pub delete_linked_payment :
      ApplyInboundEntityInput → TransactionRow → Json → Tx InboundResult
  delete_linked_payment input existing qbo = do
    reverse_linked_payment input.org_id existing (deleted_payment existing)
    finish js input existing qbo "qbo.inbound.delete" deleted_locally

  unfoldable pub void_linked_payment :
      ApplyInboundEntityInput → TransactionRow → Json → Tx InboundResult
  void_linked_payment input existing qbo = do
    reverse_linked_payment input.org_id existing (voided_payment existing)
    finish js input existing qbo "qbo.inbound.void" voided_locally

  unfoldable pub update_linked_payment :
      ApplyInboundEntityInput → TransactionRow → Json → Tx InboundResult
  update_linked_payment input existing qbo = do
    update_transactions (is_row_of input.org_id existing.id)
        (patched_payment (qbo_payment_to_local_patch qbo) existing)
    finish js input existing qbo "qbo.inbound.update" updated

  abbrev pub payment_handlers : ApplyInboundEntityInput → Json → Handlers
  payment_handlers input qbo = record {
    deleted = λ existing. delete_linked_payment input existing qbo;
    voided = λ existing. void_linked_payment input existing qbo;
    patched = λ existing. update_linked_payment input existing qbo;
  }

  unfoldable pub apply_linked_payment :
      ApplyInboundEntityInput → SyncLinkRow → Json → Tx InboundResult
  apply_linked_payment input link qbo = do
    existing ← gets (find_local_payment input.org_id link.local_id)
    apply_found js input link qbo (payment_handlers input qbo) existing

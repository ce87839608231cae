-- ===== src/Inbound/PaymentImport.antt =====
-- apps/api/src/qbo/inbound-sync.ts: a payment of QBO that no local record is linked to is imported, with
-- an application to each of its invoices.
use Prim.Native.String.{String}
use invoicing_platform.Prelude.{
  ℕ, suc, Bool, true, false, Option, none, some, List, [], ◌∷◌, ◌==◌, or_default, length,
  if◌then◌else◌,
}
use invoicing_platform.Prelude.Int.{ℤ, pos, ◌+ℤ◌}
use invoicing_platform.Money.{text, format_cents}
use invoicing_platform.Database.{
  RowId, payment, paid, transaction, success, qbo_invoice, qbo_payment, TransactionRow,
  PaymentApplicationRow, Database, failed_write, Tx, pure, gets, lift, some_or_raise, ◌>>=◌, ◌>>◌,
}
use invoicing_platform.Database.Statements.{insert_transaction, insert_applications}
use invoicing_platform.Accounts.{get_account_by_subtype}
use invoicing_platform.Ledger.{PostLedgerInput, post_ledger}
use invoicing_platform.Sync.Links.{upsert_link, find_link_by_qbo}
use invoicing_platform.Inbound.Body.{Json, JsRuntime, get, as_text}
use invoicing_platform.Inbound.Mappers.{QboPaymentLinePatch, qbo_payment_to_local_lines}
use invoicing_platform.Inbound.Guards.{
  ApplyInboundEntityInput, InboundResult, created, is_void_or_delete, audit, skip,
}
use invoicing_platform.Inbound.Payment.{recompute_all}
use invoicing_platform.Inbound.Imports.{new_link, resolve_or_create_contact_from_ref}

abbrev with_id : RowId → Option (List RowId) → Option (List RowId)
with_id id none = none
with_id id (some ids) = some (id ∷ ids)

-- The local invoices of the lines; none when one of them is not linked.
unfoldable pub resolve_invoices : RowId → List RowId → Database → Option (List RowId)
resolve_invoices org [] db = some []
resolve_invoices org (qbo_id ∷ rest) db =
    let found = resolve_invoices org rest db in
    elim (find_link_by_qbo org qbo_invoice qbo_id db) [
      | none ↦ none
      | some link ↦ with_id link.local_id found
    ]

abbrev contains : RowId → List RowId → Bool
contains id [] = false
contains id (x ∷ xs) = if x == id then true else contains id xs

-- `[...new Set(ids)]`: `seen` are the ids before.
abbrev unique_from : List RowId → List RowId → List RowId
unique_from seen [] = []
unique_from seen (x ∷ xs) =
    let without = unique_from seen xs in
    let rest = unique_from (x ∷ seen) xs in if contains x seen then without else x ∷ rest

unfoldable pub unique_ids : List RowId → List RowId
unique_ids ids = unique_from [] ids

module _ (js : JsRuntime) where
  abbrev pub line_total : List (QboPaymentLinePatch js) → ℤ
  line_total [] = pos 0
  line_total (l ∷ ls) = l.amount_cents +ℤ line_total ls

  abbrev pub invoice_qbo_ids : List (QboPaymentLinePatch js) → List RowId
  invoice_qbo_ids [] = []
  invoice_qbo_ids (l ∷ ls) = l.invoice_qbo_id ∷ invoice_qbo_ids ls

  -- `lines.map((line, index) => …)`, the line beside its invoice.
  unfoldable pub application_rows :
      RowId
      → RowId
      → List (QboPaymentLinePatch js)
      → List RowId
      → RowId
      → List PaymentApplicationRow
  application_rows org payment_id (l ∷ ls) (i ∷ is) id =
      record {
        id = id;
        org_id = org;
        payment_txn_id = payment_id;
        invoice_txn_id = i;
        amount = l.amount_cents;
      }
      ∷ application_rows org payment_id ls is (suc id)
  application_rows org payment_id _ _ id = []

  abbrev txn_date_of : Json → ℕ → String
  txn_date_of qbo now = or_default (as_text (get "TxnDate" (some qbo))) (js.today now)

  abbrev imported_row : RowId → Json → RowId → ℤ → ℕ → ℕ → TransactionRow
  imported_row org qbo contact_id total id now = record {
    id = id;
    org_id = org;
    type = payment;
    status = paid;
    contact_id = some contact_id;
    doc_number = none;
    txn_date = txn_date_of qbo now;
    due_date = none;
    memo = as_text (get "PrivateNote" (some qbo));
    subtotal = total;
    total = total;
    balance = pos 0;
    version = 0;
    created_by = none;
    updated_at = now;
    deleted_at = none;
  }

  abbrev imported_postings : RowId → TransactionRow → RowId → ℤ → RowId → RowId → PostLedgerInput
  imported_postings org row contact_id total undeposited_id ar_id = record {
    org_id = org;
    transaction_id = row.id;
    entry_date = row.txn_date;
    lines =
        record {
          account_id = undeposited_id;
          contact_id = some contact_id;
          debit = some (text (format_cents total));
          credit = none;
        }
        ∷ record {
          account_id = ar_id;
          contact_id = some contact_id;
          debit = none;
          credit = some (text (format_cents total));
        }
        ∷ [];
  }

  -- The rows, the postings and the balances of an import.
  unfoldable pub insert_imported_payment :
      ApplyInboundEntityInput
      → Json
      → List (QboPaymentLinePatch js)
      → List RowId
      → RowId
      → RowId
      → RowId
      → Tx TransactionRow
  insert_imported_payment input qbo lines ids contact_id undeposited_id ar_id = do
    row ← insert_transaction (imported_row input.org_id qbo contact_id (line_total lines))
    insert_applications (application_rows input.org_id row.id lines ids) (length lines)
    post_ledger
        (imported_postings input.org_id row contact_id (line_total lines) undeposited_id ar_id)
    recompute_all input.org_id (unique_ids ids)
    pure row

  abbrev pub import_payment :
      ApplyInboundEntityInput
      → Json
      → List (QboPaymentLinePatch js)
      → List RowId
      → Option RowId
      → Tx InboundResult
  import_payment input qbo lines ids none = skip input none "inbound_create_no_customer_ref"
  import_payment input qbo lines ids (some contact_id) = do
    ar_found ← gets (get_account_by_subtype input.org_id "accounts_receivable")
    undeposited_found ← gets (get_account_by_subtype input.org_id "undeposited_funds")
    ar ← some_or_raise ar_found failed_write
    undeposited ← some_or_raise undeposited_found failed_write
    row ← insert_imported_payment input qbo lines ids contact_id undeposited.id ar.id
    now ← gets (λ db. db.now)
    upsert_link
        (new_link input transaction row.id qbo_payment input.entity_id (some row.version) qbo now)
    audit input (some row.id) "qbo.inbound.create" success
    pure (record { action = created; local_id = some row.id; reason = none })

  abbrev pub import_resolved :
      ApplyInboundEntityInput
      → Json
      → List (QboPaymentLinePatch js)
      → Option (List RowId)
      → Tx InboundResult
  import_resolved input qbo lines none = skip input none "inbound_payment_unresolved_invoice"
  import_resolved input qbo lines (some ids) = do
    contact_id ← resolve_or_create_contact_from_ref js input qbo
    import_payment input qbo lines ids contact_id

  abbrev pub import_lines :
      ApplyInboundEntityInput → Json → List (QboPaymentLinePatch js) → Tx InboundResult
  import_lines input qbo [] = skip input none "inbound_payment_no_linked_invoices"
  import_lines input qbo (l ∷ ls) = do
    ids ← gets (resolve_invoices input.org_id (invoice_qbo_ids (l ∷ ls)))
    import_resolved input qbo (l ∷ ls) ids

  unfoldable pub create_local_payment_from_qbo : ApplyInboundEntityInput → Json → Tx InboundResult
  create_local_payment_from_qbo input qbo = do
    lines ← lift (qbo_payment_to_local_lines js qbo)
    import_lines input qbo lines

  unfoldable pub import_unlinked_payment : ApplyInboundEntityInput → Json → Tx InboundResult
  import_unlinked_payment input qbo =
      if is_void_or_delete input.operation
      then skip input none "unlinked_nothing_to_void"
      else create_local_payment_from_qbo input qbo

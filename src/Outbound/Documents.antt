-- ===== src/Outbound/Documents.antt =====
-- apps/api/src/qbo/outbound-sync.ts: the push of an invoice.
use Prim.Native.String.{String}
use invoicing_platform.Prelude.{
  leb, ℕ, Bool, true, false, ◌&&◌, not, Option, none, some, List, [], ◌∷◌, ◌==◌, is_some, map,
  if◌then◌else◌,
}
use invoicing_platform.Database.{
  RowId, transaction, synced, skipped, success, QboEntityType, qbo_invoice, TransactionRow,
  TransactionLineRow, SyncLinkRow, not_found, failed_write, gets, some_or_raise,
}
use invoicing_platform.Invoices.{fetch_invoice_lines}
use invoicing_platform.Payments.{is_voided}
use invoicing_platform.Sync.Links.{UpsertLinkInput, find_link_by_local, upsert_link}
use invoicing_platform.Inbound.Body.{Json, JsRuntime}
use invoicing_platform.Inbound.Invoice.{find_local_invoice}
use invoicing_platform.Outbound.Builders.{JsOutput, QboInvoiceLineSource, build_qbo_invoice}
use invoicing_platform.Outbound.Effects.{QboClient, Eff, done, run, try_catch, ◌>>=◌, ◌>>◌}
use invoicing_platform.Outbound.Push.{
  contact_ref, account_ref, item_ref, PushResult, is_outbound_redundant, push_entity,
  ensure_entity_synced,
}
use invoicing_platform.Outbound.Removal.{
  OutboundResult, OutboundParams, is_conflicted, audit_push, fail_outbound, void_document,
  delete_document, pushed, push_skipped,
}

abbrev insert_line : TransactionLineRow → List TransactionLineRow → List TransactionLineRow
insert_line line [] = line ∷ []
insert_line line (l ∷ ls) =
    let rest = insert_line line ls in
    if leb line.line_number l.line_number then line ∷ l ∷ ls else l ∷ rest

-- `orderBy(asc(lineNumber))`
abbrev by_line_number : List TransactionLineRow → List TransactionLineRow
by_line_number [] = []
by_line_number (line ∷ lines) = insert_line line (by_line_number lines)

module _ (js : JsRuntime) (out : JsOutput) (q : QboClient) where
  abbrev has : RowId → List RowId → Bool
  has id [] = false
  has id (x ∷ xs) = if x == id then true else has id xs

  abbrev item_of : RowId → List (RowId × RowId) → Option RowId
  item_of id [] = none
  item_of id (x ∷ xs) = if x.0 == id then some x.1 else item_of id xs

  abbrev ensure_account : RowId → RowId → Bool → Eff q Unit
  ensure_account org id true = done tt
  ensure_account org id false = ensure_entity_synced js out q org account_ref id >> done tt

  abbrev ensure_new_item :
      RowId → RowId → List (RowId × RowId) → Option RowId → Eff q (List (RowId × RowId))
  ensure_new_item org id items (some known) = done items
  ensure_new_item org id items none = do
    qbo_id ← ensure_entity_synced js out q org item_ref id
    done ((id, qbo_id) ∷ items)

  abbrev ensure_item : RowId → Option RowId → List (RowId × RowId) → Eff q (List (RowId × RowId))
  ensure_item org none items = done items
  ensure_item org (some id) items = ensure_new_item org id items (item_of id items)

  -- The accounts and items of the lines, each once; the result is the QBO ids of the items.
  unfoldable pub ensure_line_refs :
      RowId
      → List TransactionLineRow
      → List RowId
      → List (RowId × RowId)
      → Eff q (List (RowId × RowId))
  ensure_line_refs org [] accounts items = done items
  ensure_line_refs org (line ∷ lines) accounts items = do
    ensure_account org line.account_id (has line.account_id accounts)
    items' ← ensure_item org line.item_id items
    ensure_line_refs org lines (line.account_id ∷ accounts) items'

  abbrev line_source : List (RowId × RowId) → TransactionLineRow → QboInvoiceLineSource
  line_source items line = record {
    description = line.description;
    quantity = line.quantity;
    unit_price = line.unit_price;
    amount = line.amount;
    item_qbo_id = elim line.item_id [ none ↦ none | some id ↦ item_of id items ];
  }

  abbrev pub pushed_link :
      OutboundParams → TransactionRow → QboEntityType → PushResult → ℕ → UpsertLinkInput
  pushed_link params txn type result now = record {
    org_id = params.org_id;
    entity_type = transaction;
    local_id = txn.id;
    qbo_type = type;
    qbo_id = result.qbo_id;
    state = some synced;
    local_version = some (some txn.version);
    qbo_sync_token = some result.sync_token;
    last_synced_at = some (some now);
    conflict_detected_at = some none;
    retry_count = some 0;
    next_retry_at = some none;
    last_error = some none;
  }

  abbrev skip_push : OutboundParams → RowId → Option RowId → String → Eff q OutboundResult
  skip_push params id qbo_id reason = do
    audit_push q params id "outbound_sync" skipped
    done (record { status = push_skipped; qbo_id = qbo_id; reason = some reason })

  -- The push itself; `link_of` is the link to write afterwards.
  abbrev pub push_document :
      OutboundParams
      → TransactionRow
      → QboEntityType
      → (PushResult → ℕ → UpsertLinkInput)
      → Json
      → Option SyncLinkRow
      → Eff q OutboundResult
  push_document params txn type link_of body existing = do
    result ← push_entity js out q type existing body
    now ← run (gets (λ db. db.now))
    run (upsert_link (link_of result now))
    audit_push q params txn.id "outbound_sync" success
    done (record { status = pushed; qbo_id = some result.qbo_id; reason = none })

  abbrev pub qbo_id_of : Option SyncLinkRow → Option RowId
  qbo_id_of none = none
  qbo_id_of (some link) = link.qbo_id

  unfoldable pub push_unless_current :
      OutboundParams
      → TransactionRow
      → QboEntityType
      → (PushResult → ℕ → UpsertLinkInput)
      → Json
      → Eff q OutboundResult
  push_unless_current params txn type link_of body = do
    existing ← run (gets (find_link_by_local params.org_id transaction txn.id))
    if not params.force && is_outbound_redundant existing txn.version
        then skip_push params txn.id (qbo_id_of existing) "already_current"
        else push_document params txn type link_of body existing

  unfoldable pub push_invoice : OutboundParams → TransactionRow → Eff q OutboundResult
  push_invoice params txn = do
    contact_id ← run (some_or_raise txn.contact_id failed_write)
    customer ← ensure_entity_synced js out q params.org_id contact_ref contact_id
    lines ← run (gets (λ db. by_line_number (fetch_invoice_lines params.org_id txn.id db)))
    items ← ensure_line_refs params.org_id lines [] []
    push_unless_current params txn qbo_invoice (pushed_link params txn qbo_invoice) (
        build_qbo_invoice out
          (record {
            doc_number = txn.doc_number;
            txn_date = txn.txn_date;
            due_date = txn.due_date;
            memo = txn.memo;
          })
          (map (line_source items) lines) customer)

  -- What an invoice and a payment that are not held in conflict share: delete, void or push.
  unfoldable pub sync_live :
      (OutboundParams → TransactionRow → Eff q OutboundResult)
      → OutboundParams
      → QboEntityType
      → TransactionRow
      → Eff q OutboundResult
  sync_live push params type txn =
      if is_some txn.deleted_at
      then delete_document js out q params type txn
      else if is_voided txn.status
      then void_document js out q params type txn
      else try_catch (push params txn) (fail_outbound q params type txn.id "outbound_sync")

  unfoldable pub sync_document :
      (OutboundParams → TransactionRow → Eff q OutboundResult)
      → OutboundParams
      → QboEntityType
      → TransactionRow
      → Eff q OutboundResult
  sync_document push params type txn = do
    guard_link ← run (gets (find_link_by_local params.org_id transaction txn.id))
    if not params.force && is_conflicted guard_link
        then skip_push params txn.id none "conflict_blocked"
        else sync_live push params type txn

  unfoldable pub sync_invoice_outbound : OutboundParams → Eff q OutboundResult
  sync_invoice_outbound params = do
    found ← run (gets (find_local_invoice params.org_id params.txn_id))
    txn ← run (some_or_raise found not_found)
    sync_document push_invoice params qbo_invoice txn

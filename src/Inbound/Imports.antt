-- ===== src/Inbound/Imports.antt =====
-- apps/api/src/qbo/inbound-sync.ts: records of QBO that no local record is linked to. An invoice and a
-- customer are matched by their natural keys, an invoice without a match and a payment are imported.
use mathlib.Core.Option
use Prim.Native.String.{String, ◌++◌ as append}
use invoicing_platform.Prelude.{
  ℕ, ◌+◌, Bool, true, false, Option, none, some, List, [], ◌∷◌, or_default, if◌then◌else◌,
}
use invoicing_platform.Database.{
  RowId, ContactRow, contact, transaction, synced, SyncEntityType, success, failure, skipped,
  inbound, qbo_invoice, qbo_customer, QboEntityType, TransactionRow, SyncLinkRow, AuditLogRow,
  range_error, Tx, pure, gets, some_or_raise, ◌>>=◌, ◌>>◌,
}
use invoicing_platform.Database.Statements.{insert_contact, write_audit_log}
use invoicing_platform.Invoices.{CreateInvoiceInput, insert_customer_invoice}
use invoicing_platform.Payments.{is_voided}
use invoicing_platform.Sync.Links.{UpsertLinkInput, upsert_link, find_link_by_qbo, mark_synced}
use invoicing_platform.Sync.NaturalKey.{
  MatchResult, matched, unmatched, ambiguous, match_contact_by_natural_key,
  match_invoice_by_natural_key,
}
use invoicing_platform.Inbound.Body.{Json, JsRuntime, get, as_text, non_empty, trim_string}
use invoicing_platform.Inbound.Mappers.{
  map_qbo_invoice_lines, qbo_sync_token, qbo_invoice_to_match_target, qbo_customer_to_match_target,
}
use invoicing_platform.Inbound.Guards.{
  ApplyInboundEntityInput, InboundResult, Operation, create_op, linked, created,
  unmatched as not_matched, skipped_apply, is_void_or_delete, audit, leave, skip,
}
use invoicing_platform.Inbound.Candidates.{load_contact_candidates, load_invoice_candidates}
use invoicing_platform.Inbound.Invoice.{find_local_invoice, apply_invoice_metadata_patch}

-- A link to a record that was just matched or made.
abbrev pub new_link :
    ApplyInboundEntityInput
    → SyncEntityType
    → RowId
    → QboEntityType
    → RowId
    → Option ℕ
    → Json
    → ℕ
    → UpsertLinkInput
new_link input entity id type qbo_id version qbo now = record {
  org_id = input.org_id;
  entity_type = entity;
  local_id = id;
  qbo_type = type;
  qbo_id = qbo_id;
  state = some synced;
  local_version = Option.map some version;
  qbo_sync_token = some (qbo_sync_token qbo);
  last_synced_at = some (some now);
  conflict_detected_at = none;
  retry_count = none;
  next_retry_at = none;
  last_error = none;
}

abbrev new_contact : RowId → String → ℕ → ContactRow
new_contact org display_name id = record {
  id = id;
  org_id = org;
  display_name = display_name;
  email = none;
  phone = none;
  is_customer = true;
}

-- `ref.name` trimmed, or a name made of the id.
abbrev customer_name : Json → String → String
customer_name qbo id =
    or_default
      (non_empty (Option.map trim_string (as_text (get "name" (get "CustomerRef" (some qbo))))))
      (append "QuickBooks customer " id)

abbrev contact_link_row : ApplyInboundEntityInput → RowId → AuditLogRow
contact_link_row input id = record {
  org_id = input.org_id;
  user_id = none;
  entity_type = "contact";
  local_id = some id;
  action = "qbo.inbound.link";
  direction = inbound;
  outcome = success;
}

module _ (js : JsRuntime) where
  abbrev pub contact_of_ref :
      ApplyInboundEntityInput → Json → String → Option SyncLinkRow → Tx (Option RowId)
  contact_of_ref input qbo id (some existing) = pure (some existing.local_id)
  contact_of_ref input qbo id none = do
    row ← insert_contact (new_contact input.org_id (customer_name qbo id))
    now ← gets (λ db. db.now)
    upsert_link (record (new_link input contact row.id qbo_customer (js.qbo_id id) none qbo now) {
      qbo_sync_token = none;
    })
    write_audit_log (contact_link_row input row.id)
    pure (some row.id)

  abbrev pub contact_of_id : ApplyInboundEntityInput → Json → Option String → Tx (Option RowId)
  contact_of_id input qbo none = pure none
  contact_of_id input qbo (some id) = do
    existing ← gets (find_link_by_qbo input.org_id qbo_customer (js.qbo_id id))
    contact_of_ref input qbo id existing

  unfoldable pub resolve_or_create_contact_from_ref :
      ApplyInboundEntityInput → Json → Tx (Option RowId)
  resolve_or_create_contact_from_ref input qbo =
      contact_of_id input qbo (non_empty (as_text (get "value" (get "CustomerRef" (some qbo)))))

  abbrev imported_invoice : Json → RowId → ℕ → CreateInvoiceInput
  imported_invoice qbo contact_id now = record {
    contact_id = contact_id;
    txn_date = or_default (as_text (get "TxnDate" (some qbo))) (js.today now);
    due_date = as_text (get "DueDate" (some qbo));
    memo = as_text (get "PrivateNote" (some qbo));
    doc_number = as_text (get "DocNumber" (some qbo));
    lines = map_qbo_invoice_lines js qbo;
  }

  abbrev pub create_invoice_for : ApplyInboundEntityInput → Json → Option RowId → Tx InboundResult
  create_invoice_for input qbo none = skip input none "inbound_create_no_customer_ref"
  create_invoice_for input qbo (some contact_id) = do
    now ← gets (λ db. db.now)
    made ←
        insert_customer_invoice js.numbers input.org_id (imported_invoice qbo contact_id now) none
    upsert_link (
        new_link input transaction (made.0).id qbo_invoice input.entity_id (some (made.0).version)
          qbo now)
    audit input (some (made.0).id) "qbo.inbound.create" success
    pure (record { action = created; local_id = some (made.0).id; reason = none })

  abbrev is_empty {ℓ} : {A : Type ℓ} → List A → Bool
  is_empty [] = true
  is_empty (_ ∷ _) = false

  unfoldable pub create_local_invoice_from_qbo : ApplyInboundEntityInput → Json → Tx InboundResult
  create_local_invoice_from_qbo input qbo =
      if is_empty (map_qbo_invoice_lines js qbo)
      then skip input none "inbound_create_no_lines"
      else (do
        contact_id ← resolve_or_create_contact_from_ref input qbo
        create_invoice_for input qbo contact_id)

  -- A match is linked, and unless it is void its metadata is patched and the link moved on.
  abbrev pub patch_unless_void : ApplyInboundEntityInput → Json → TransactionRow → Tx Unit
  patch_unless_void input qbo invoice = if is_voided invoice.status then pure tt else (do
    apply_invoice_metadata_patch input.org_id invoice qbo
    mark_synced input.org_id transaction invoice.id (record {
      qbo_sync_token = none;
      local_version = some (invoice.version + 1);
      last_synced_at = none;
    })
    pure tt)

  abbrev pub link_invoice :
      ApplyInboundEntityInput → Json → Option TransactionRow → Tx InboundResult
  link_invoice input qbo none =
      leave input none "qbo.inbound.skip" failure none skipped_apply "matched_row_missing"
  link_invoice input qbo (some invoice) = do
    now ← gets (λ db. db.now)
    upsert_link (
        new_link input transaction invoice.id qbo_invoice input.entity_id (some invoice.version) qbo
          now)
    patch_unless_void input qbo invoice
    audit input (some invoice.id) "qbo.inbound.link" success
    pure (record { action = linked; local_id = some invoice.id; reason = none })

  abbrev pub link_matched_invoice : ApplyInboundEntityInput → Json → MatchResult → Tx InboundResult
  link_matched_invoice input qbo (ambiguous ids) =
      leave input none "qbo.inbound.skip" skipped none not_matched "ambiguous_natural_key_match"
  link_matched_invoice input qbo unmatched = create_local_invoice_from_qbo input qbo
  link_matched_invoice input qbo (matched id) = do
    invoice ← gets (find_local_invoice input.org_id id)
    link_invoice input qbo invoice

  unfoldable pub link_unmatched_invoice : ApplyInboundEntityInput → Json → Tx InboundResult
  link_unmatched_invoice input qbo =
      if is_void_or_delete input.operation then skip input none "unlinked_nothing_to_void" else (do
        candidates ← gets (load_invoice_candidates input.org_id)
        result ←
            some_or_raise
              (match_invoice_by_natural_key (qbo_invoice_to_match_target js qbo) candidates)
              range_error
        link_matched_invoice input qbo result)

  abbrev customer_reason : MatchResult → Operation → String
  customer_reason (ambiguous ids) operation = "ambiguous_natural_key_match"
  customer_reason _ create_op = "no_match:create_deferred"
  customer_reason _ _ = "no_match"

  abbrev pub link_matched_customer : ApplyInboundEntityInput → Json → MatchResult → Tx InboundResult
  link_matched_customer input qbo (matched id) = do
    now ← gets (λ db. db.now)
    upsert_link (new_link input contact id qbo_customer input.entity_id none qbo now)
    audit input (some id) "qbo.inbound.link" success
    pure (record { action = linked; local_id = some id; reason = none })
  link_matched_customer input qbo unmatched =
      leave input none "qbo.inbound.skip" skipped none not_matched
        (customer_reason unmatched input.operation)
  link_matched_customer input qbo (ambiguous ids) =
      leave input none "qbo.inbound.skip" skipped none not_matched
        (customer_reason (ambiguous ids) input.operation)

  unfoldable pub link_unmatched_customer : ApplyInboundEntityInput → Json → Tx InboundResult
  link_unmatched_customer input qbo =
      if is_void_or_delete input.operation then skip input none "unlinked_nothing_to_void" else (do
        candidates ← gets (load_contact_candidates input.org_id)
        link_matched_customer input qbo (
            match_contact_by_natural_key js.to_lower_case (qbo_customer_to_match_target qbo)
              candidates))

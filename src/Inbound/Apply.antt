-- ===== src/Inbound/Apply.antt =====
-- apps/api/src/qbo/inbound-sync.ts: `applyInboundEntity`, which takes a change that was read from QBO to
-- the local records, in the transaction that claims its event.
use Prim.Native.String.{String, ◌++◌ as append}
use invoicing_platform.Prelude.{Option, none, some, if◌then◌else◌}
use invoicing_platform.Database.{
  contact, QboEntityType, qbo_invoice, qbo_payment, qbo_customer, qbo_account, qbo_item,
  SyncLinkRow, success, failure, Tx, pure, gets, ◌>>=◌, ◌>>◌,
}
use invoicing_platform.Sync.Links.{find_link_by_qbo, mark_synced}
use invoicing_platform.Inbound.Body.{Json, JsRuntime, get, as_object}
use invoicing_platform.Inbound.Mappers.{qbo_sync_token}
use invoicing_platform.Inbound.Guards.{
  Operation, create_op, update_op, delete_op, merge_op, void_op, emailed_op,
  ApplyInboundEntityInput, InboundResult, updated, skipped_apply, is_noop, is_void_or_delete, audit,
  leave, skip,
}
use invoicing_platform.Inbound.Invoice.{apply_linked_invoice}
use invoicing_platform.Inbound.Payment.{apply_linked_payment}
use invoicing_platform.Inbound.Imports.{link_unmatched_invoice, link_unmatched_customer}
use invoicing_platform.Inbound.PaymentImport.{import_unlinked_payment}

-- The body of the record in the envelope.
abbrev pub unwrap_entity : String → Json → Option Json
unwrap_entity name refetched = as_object (get name (some refetched))

abbrev pub missing_body : ApplyInboundEntityInput → Tx InboundResult
missing_body input =
    leave input none "qbo.inbound.skip" failure none skipped_apply "refetch_missing_entity_body"

abbrev pub operation_name : Operation → String
operation_name create_op = "Create"
operation_name update_op = "Update"
operation_name delete_op = "Delete"
operation_name merge_op = "Merge"
operation_name void_op = "Void"
operation_name emailed_op = "Emailed"

abbrev pub entity_type_name : QboEntityType → String
entity_type_name qbo_customer = "Customer"
entity_type_name qbo_account = "Account"
entity_type_name qbo_item = "Item"
entity_type_name qbo_invoice = "Invoice"
entity_type_name qbo_payment = "Payment"

module _ (js : JsRuntime) where
  abbrev pub apply_invoice_with :
      ApplyInboundEntityInput → Json → Option SyncLinkRow → Tx InboundResult
  apply_invoice_with input qbo (some link) = apply_linked_invoice js input link qbo
  apply_invoice_with input qbo none = link_unmatched_invoice js input qbo

  abbrev pub apply_invoice_body : ApplyInboundEntityInput → Option Json → Tx InboundResult
  apply_invoice_body input none = missing_body input
  apply_invoice_body input (some qbo) = do
    link ← gets (find_link_by_qbo input.org_id qbo_invoice input.entity_id)
    apply_invoice_with input qbo link

  unfoldable pub apply_invoice : ApplyInboundEntityInput → Tx InboundResult
  apply_invoice input = apply_invoice_body input (unwrap_entity "Invoice" input.refetched)

  abbrev pub apply_payment_with :
      ApplyInboundEntityInput → Json → Option SyncLinkRow → Tx InboundResult
  apply_payment_with input qbo (some link) = apply_linked_payment js input link qbo
  apply_payment_with input qbo none = import_unlinked_payment js input qbo

  abbrev pub apply_payment_body : ApplyInboundEntityInput → Option Json → Tx InboundResult
  apply_payment_body input none = missing_body input
  apply_payment_body input (some qbo) = do
    link ← gets (find_link_by_qbo input.org_id qbo_payment input.entity_id)
    apply_payment_with input qbo link

  unfoldable pub apply_payment : ApplyInboundEntityInput → Tx InboundResult
  apply_payment input = apply_payment_body input (unwrap_entity "Payment" input.refetched)

  -- Only the link of a customer moves on: its content is not taken over.
  unfoldable pub refresh_contact_link :
      ApplyInboundEntityInput → SyncLinkRow → Json → Tx InboundResult
  refresh_contact_link input link qbo = do
    now ← gets (λ db. db.now)
    mark_synced input.org_id contact link.local_id (record {
      qbo_sync_token = qbo_sync_token qbo;
      local_version = none;
      last_synced_at = some now;
    })
    audit input (some link.local_id) "qbo.inbound.update" success
    pure (record { action = updated; local_id = some link.local_id; reason = none })

  abbrev pub apply_customer_with :
      ApplyInboundEntityInput → Json → Option SyncLinkRow → Tx InboundResult
  apply_customer_with input qbo none = link_unmatched_customer js input qbo
  apply_customer_with input qbo (some link) =
      if is_void_or_delete input.operation
      then skip input (some link.local_id) "contact_void_not_supported"
      else refresh_contact_link input link qbo

  abbrev pub apply_customer_body : ApplyInboundEntityInput → Option Json → Tx InboundResult
  apply_customer_body input none = missing_body input
  apply_customer_body input (some qbo) = do
    link ← gets (find_link_by_qbo input.org_id qbo_customer input.entity_id)
    apply_customer_with input qbo link

  unfoldable pub apply_customer : ApplyInboundEntityInput → Tx InboundResult
  apply_customer input = apply_customer_body input (unwrap_entity "Customer" input.refetched)

  abbrev pub apply_by_type : QboEntityType → ApplyInboundEntityInput → Tx InboundResult
  apply_by_type qbo_invoice input = apply_invoice input
  apply_by_type qbo_payment input = apply_payment input
  apply_by_type qbo_customer input = apply_customer input
  apply_by_type type input =
      skip input none (append "entity_type_not_applied:" (entity_type_name type))

  unfoldable pub apply_inbound_entity : ApplyInboundEntityInput → Tx InboundResult
  apply_inbound_entity input =
      if is_noop input.operation
      then skip input none (append "operation_not_applied:" (operation_name input.operation))
      else apply_by_type input.entity_type input

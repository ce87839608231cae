-- ===== src/Inbound/Linked.antt =====
-- What the entry point comes to for a record that is linked to a local invoice or payment.
use invoicing_platform.Prelude.{◌≡◌, refl, false, some, ◌∙◌}
use invoicing_platform.Database.{
  SyncLinkRow, TransactionRow, QboEntityType, qbo_invoice, qbo_payment, Database,
}
use invoicing_platform.Sync.Links.{find_link_by_qbo}
use invoicing_platform.Inbound.Body.{Json, JsRuntime}
use invoicing_platform.Inbound.Guards.{ApplyInboundEntityInput, Handlers, is_noop, apply_row}
use invoicing_platform.Inbound.Invoice.{find_local_invoice, apply_linked_invoice, invoice_handlers}
use invoicing_platform.Inbound.Payment.{find_local_payment, apply_linked_payment, payment_handlers}
use invoicing_platform.Inbound.Apply.{
  unwrap_entity, apply_invoice, apply_payment, apply_inbound_entity,
}

-- The input is a change of a record of QBO with a body, which a link ties to a local row.
pub data IsLinkedChange (input : ApplyInboundEntityInput) (db : Database) (link : SyncLinkRow)
    (t : TransactionRow) (qbo : Json) : Type 0 where
  invoice_change :
      input.entity_type ≡ qbo_invoice
      → is_noop input.operation ≡ false
      → unwrap_entity "Invoice" input.refetched ≡ some qbo
      → find_link_by_qbo input.org_id qbo_invoice input.entity_id db ≡ some link
      → find_local_invoice input.org_id link.local_id db ≡ some t
      → IsLinkedChange input db link t qbo
  payment_change :
      input.entity_type ≡ qbo_payment
      → is_noop input.operation ≡ false
      → unwrap_entity "Payment" input.refetched ≡ some qbo
      → find_link_by_qbo input.org_id qbo_payment input.entity_id db ≡ some link
      → find_local_payment input.org_id link.local_id db ≡ some t
      → IsLinkedChange input db link t qbo

module _ (js : JsRuntime) (input : ApplyInboundEntityInput) where
  abbrev pub handlers_of : Json → QboEntityType → Handlers
  handlers_of qbo qbo_payment = payment_handlers js input qbo
  handlers_of qbo _ = invoice_handlers js input qbo

  pub apply_inbound_entity-linked :
      (link : SyncLinkRow) (qbo : Json) (t : TransactionRow) (db : Database)
      → IsLinkedChange input db link t qbo
      → apply_inbound_entity js input db
        ≡ apply_row js input link qbo (handlers_of qbo input.entity_type) t db
  unfolding apply_inbound_entity apply_invoice apply_payment apply_linked_invoice
      apply_linked_payment
  apply_inbound_entity-linked link qbo t db (invoice_change e n b l f) = rw (n, e, b, l, f) refl
  apply_inbound_entity-linked link qbo t db (payment_change e n b l f) = rw (n, e, b, l, f) refl

-- The same record of QBO, in a change that came later.
pub record IsLater (first_input later : ApplyInboundEntityInput) (qbo : Json) : Type 0 where
  pub org_id : later.org_id ≡ first_input.org_id
  pub entity_type : later.entity_type ≡ first_input.entity_type
  pub entity_id : later.entity_id ≡ first_input.entity_id
  pub applies : is_noop later.operation ≡ false
  pub invoice_body :
      later.entity_type ≡ qbo_invoice → unwrap_entity "Invoice" later.refetched ≡ some qbo
  pub payment_body :
      later.entity_type ≡ qbo_payment → unwrap_entity "Payment" later.refetched ≡ some qbo

module _ (input later : ApplyInboundEntityInput) (db out : Database) (link link' : SyncLinkRow)
    (t t' : TransactionRow) (qbo qbo' : Json) where
  -- A later change finds what the links and the rows became.
  pub later-IsLinkedChange :
      IsLater input later qbo'
      → IsLinkedChange input db link t qbo
      → ((type : QboEntityType)
          → find_link_by_qbo input.org_id type input.entity_id db ≡ some link
          → find_link_by_qbo input.org_id type input.entity_id out ≡ some link')
      → (input.entity_type ≡ qbo_invoice
          → find_local_invoice input.org_id link.local_id db ≡ some t
          → find_local_invoice input.org_id link'.local_id out ≡ some t')
      → (input.entity_type ≡ qbo_payment
          → find_local_payment input.org_id link.local_id db ≡ some t
          → find_local_payment input.org_id link'.local_id out ≡ some t')
      → IsLinkedChange later out link' t' qbo'
  later-IsLinkedChange k (invoice_change e n b l f) links invoices payments =
      invoice_change (k.entity_type ∙ e) k.applies (k.invoice_body (k.entity_type ∙ e))
        (rw (k.org_id, k.entity_id) (links qbo_invoice l)) (rw k.org_id (invoices e f))
  later-IsLinkedChange k (payment_change e n b l f) links invoices payments =
      payment_change (k.entity_type ∙ e) k.applies (k.payment_body (k.entity_type ∙ e))
        (rw (k.org_id, k.entity_id) (links qbo_payment l)) (rw k.org_id (payments e f))

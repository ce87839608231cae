-- ===== src/Inbound/Books.antt =====
-- The inbound apply keeps the books balanced, whatever QBO sends.
mod Guards
mod Invoice
mod Payment
mod Imports
use Prim.Native.String.{String}
use invoicing_platform.Prelude.{Option, none, some}
use invoicing_platform.Database.{
  QboEntityType, qbo_invoice, qbo_payment, qbo_customer, qbo_account, qbo_item, SyncLinkRow,
  Database, transact,
}
use invoicing_platform.Database.Keeps.{Keeps, keeps_rules, transact-Keeps}
use invoicing_platform.Ledger.Balance.{IsBalanced}
use invoicing_platform.Ledger.Statements.{statement_rules}
use invoicing_platform.Inbound.Body.{Json, JsRuntime}
use invoicing_platform.Inbound.Guards.{ApplyInboundEntityInput}
use invoicing_platform.Inbound.Apply.{
  apply_invoice_with, apply_invoice_body, apply_invoice, apply_payment_with, apply_payment_body,
  apply_payment, refresh_contact_link, apply_customer_with, apply_customer_body, apply_customer,
  apply_by_type, apply_inbound_entity,
}
use invoicing_platform.Inbound.Books.Guards.{audit-Keeps, leave-Keeps}
use invoicing_platform.Inbound.Books.Invoice.{apply_linked_invoice-Keeps}
use invoicing_platform.Inbound.Books.Payment.{apply_linked_payment-Keeps}
use invoicing_platform.Inbound.Books.Imports.{
  link_unmatched_invoice-Keeps, link_unmatched_customer-Keeps, import_unlinked_payment-Keeps,
}

module _ (js : JsRuntime) (input : ApplyInboundEntityInput) where
  invoice_with-Keeps :
      (qbo : Json) (o : Option SyncLinkRow) → Keeps IsBalanced (apply_invoice_with js input qbo o)
  invoice_with-Keeps qbo none = link_unmatched_invoice-Keeps js input qbo
  invoice_with-Keeps qbo (some l) = apply_linked_invoice-Keeps js input l qbo

  invoice_body-Keeps : (o : Option Json) → Keeps IsBalanced (apply_invoice_body js input o)
  invoice_body-Keeps none = search leave-Keeps
  invoice_body-Keeps (some qbo) = search (keeps_rules, invoice_with-Keeps)

  payment_with-Keeps :
      (qbo : Json) (o : Option SyncLinkRow) → Keeps IsBalanced (apply_payment_with js input qbo o)
  payment_with-Keeps qbo none = import_unlinked_payment-Keeps js input qbo
  payment_with-Keeps qbo (some l) = apply_linked_payment-Keeps js input l qbo

  payment_body-Keeps : (o : Option Json) → Keeps IsBalanced (apply_payment_body js input o)
  payment_body-Keeps none = search leave-Keeps
  payment_body-Keeps (some qbo) = search (keeps_rules, payment_with-Keeps)

  refresh_contact_link-Keeps :
      (link : SyncLinkRow) (qbo : Json) → Keeps IsBalanced (refresh_contact_link js input link qbo)
  unfolding refresh_contact_link
  refresh_contact_link-Keeps link qbo = search (keeps_rules, statement_rules, audit-Keeps) depth 12

  customer_with-Keeps :
      (qbo : Json) (o : Option SyncLinkRow) → Keeps IsBalanced (apply_customer_with js input qbo o)
  customer_with-Keeps qbo none = link_unmatched_customer-Keeps js input qbo
  customer_with-Keeps qbo (some l) =
      search (keeps_rules, leave-Keeps, refresh_contact_link-Keeps) depth 12

  customer_body-Keeps : (o : Option Json) → Keeps IsBalanced (apply_customer_body js input o)
  customer_body-Keeps none = search leave-Keeps
  customer_body-Keeps (some qbo) = search (keeps_rules, customer_with-Keeps)

  by_type-Keeps : (type : QboEntityType) → Keeps IsBalanced (apply_by_type js type input)
  unfolding apply_invoice apply_payment apply_customer
  by_type-Keeps qbo_invoice = search invoice_body-Keeps
  by_type-Keeps qbo_payment = search payment_body-Keeps
  by_type-Keeps qbo_customer = search customer_body-Keeps
  by_type-Keeps qbo_account = search leave-Keeps
  by_type-Keeps qbo_item = search leave-Keeps

  pub apply_inbound_entity-Keeps : Keeps IsBalanced (apply_inbound_entity js input)
  unfolding apply_inbound_entity
  apply_inbound_entity-Keeps = search (keeps_rules, leave-Keeps, by_type-Keeps) depth 12

-- From books in which debits equal credits in every transaction, an inbound change leaves such books:
-- whatever record QBO sent, for every operation and entity type, linked or not, with or without the
-- bypass of conflicts, and whether the apply goes through or throws.
pub apply_inbound_entity-IsBalanced :
    (js : JsRuntime) (input : ApplyInboundEntityInput) (db : Database)
    → IsBalanced db
    → IsBalanced (transact (apply_inbound_entity js input) db).1
apply_inbound_entity-IsBalanced js input db h =
    transact-Keeps IsBalanced (apply_inbound_entity js input) db
      (apply_inbound_entity-Keeps js input) h

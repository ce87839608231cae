-- ===== src/Inbound/Books/Imports.antt =====
-- Linking and importing records of QBO keeps the books balanced.
use Prim.Native.String.{String}
use invoicing_platform.Prelude.{Option, none, some, List, [], ◌∷◌}
use invoicing_platform.Database.{RowId, SyncLinkRow, TransactionRow}
use invoicing_platform.Database.Keeps.{Keeps, keeps_rules}
use invoicing_platform.Ledger.Balance.{IsBalanced}
use invoicing_platform.Ledger.Statements.{statement_rules}
use invoicing_platform.Inbound.Body.{Json, JsRuntime}
use invoicing_platform.Inbound.Mappers.{QboPaymentLinePatch}
use invoicing_platform.Inbound.Guards.{ApplyInboundEntityInput}
use invoicing_platform.Inbound.Invoice.{apply_invoice_metadata_patch}
use invoicing_platform.Sync.NaturalKey.{MatchResult, matched, unmatched, ambiguous}
use invoicing_platform.Invoices.Books.{insert_customer_invoice-Keeps}
use invoicing_platform.Inbound.Imports.{
  contact_of_ref, contact_of_id, resolve_or_create_contact_from_ref, create_invoice_for,
  create_local_invoice_from_qbo, patch_unless_void, link_invoice, link_matched_invoice,
  link_unmatched_invoice, link_matched_customer, link_unmatched_customer,
}
use invoicing_platform.Inbound.PaymentImport.{
  insert_imported_payment, import_payment, import_resolved, import_lines,
  create_local_payment_from_qbo, import_unlinked_payment,
}
use invoicing_platform.Inbound.Books.Payment.{recompute_all-Keeps}
use invoicing_platform.Inbound.Books.Guards.{audit-Keeps, leave-Keeps}

module _ (js : JsRuntime) (input : ApplyInboundEntityInput) where
  contact_of_ref-Keeps :
      (qbo : Json) (id : String) (o : Option SyncLinkRow)
      → Keeps IsBalanced (contact_of_ref js input qbo id o)
  contact_of_ref-Keeps qbo id none = search (keeps_rules, statement_rules) depth 12
  contact_of_ref-Keeps qbo id (some l) = search keeps_rules

  contact_of_id-Keeps :
      (qbo : Json) (o : Option String) → Keeps IsBalanced (contact_of_id js input qbo o)
  contact_of_id-Keeps qbo none = search keeps_rules
  contact_of_id-Keeps qbo (some id) = search (keeps_rules, contact_of_ref-Keeps)

  resolve_contact-Keeps :
      (qbo : Json) → Keeps IsBalanced (resolve_or_create_contact_from_ref js input qbo)
  unfolding resolve_or_create_contact_from_ref
  resolve_contact-Keeps qbo = search contact_of_id-Keeps

  create_invoice_for-Keeps :
      (qbo : Json) (o : Option RowId) → Keeps IsBalanced (create_invoice_for js input qbo o)
  create_invoice_for-Keeps qbo none = search leave-Keeps
  create_invoice_for-Keeps qbo (some id) =
      search (keeps_rules, statement_rules, insert_customer_invoice-Keeps, audit-Keeps) depth 12

  create_local_invoice_from_qbo-Keeps :
      (qbo : Json) → Keeps IsBalanced (create_local_invoice_from_qbo js input qbo)
  unfolding create_local_invoice_from_qbo
  create_local_invoice_from_qbo-Keeps qbo =
      search (keeps_rules, leave-Keeps, resolve_contact-Keeps, create_invoice_for-Keeps) depth 16

  patch_unless_void-Keeps :
      (qbo : Json) (t : TransactionRow) → Keeps IsBalanced (patch_unless_void js input qbo t)
  unfolding apply_invoice_metadata_patch
  patch_unless_void-Keeps qbo t = search (keeps_rules, statement_rules) depth 12

  link_invoice-Keeps :
      (qbo : Json) (o : Option TransactionRow) → Keeps IsBalanced (link_invoice js input qbo o)
  link_invoice-Keeps qbo none = search leave-Keeps
  link_invoice-Keeps qbo (some t) =
      search (keeps_rules, statement_rules, patch_unless_void-Keeps, audit-Keeps) depth 12

  link_matched_invoice-Keeps :
      (qbo : Json) (r : MatchResult) → Keeps IsBalanced (link_matched_invoice js input qbo r)
  link_matched_invoice-Keeps qbo (ambiguous ids) = search leave-Keeps
  link_matched_invoice-Keeps qbo unmatched = create_local_invoice_from_qbo-Keeps qbo
  link_matched_invoice-Keeps qbo (matched id) = search (keeps_rules, link_invoice-Keeps)

  pub link_unmatched_invoice-Keeps :
      (qbo : Json) → Keeps IsBalanced (link_unmatched_invoice js input qbo)
  unfolding link_unmatched_invoice
  link_unmatched_invoice-Keeps qbo =
      search (keeps_rules, leave-Keeps, link_matched_invoice-Keeps) depth 16

  link_matched_customer-Keeps :
      (qbo : Json) (r : MatchResult) → Keeps IsBalanced (link_matched_customer js input qbo r)
  link_matched_customer-Keeps qbo (ambiguous ids) = search leave-Keeps
  link_matched_customer-Keeps qbo unmatched = search leave-Keeps
  link_matched_customer-Keeps qbo (matched id) =
      search (keeps_rules, statement_rules, audit-Keeps) depth 12

  pub link_unmatched_customer-Keeps :
      (qbo : Json) → Keeps IsBalanced (link_unmatched_customer js input qbo)
  unfolding link_unmatched_customer
  link_unmatched_customer-Keeps qbo =
      search (keeps_rules, leave-Keeps, link_matched_customer-Keeps) depth 16

  insert_imported_payment-Keeps :
      (qbo : Json) (lines : List (QboPaymentLinePatch js)) (ids : List RowId)
      (contact undeposited ar : RowId)
      → Keeps IsBalanced (insert_imported_payment js input qbo lines ids contact undeposited ar)
  unfolding insert_imported_payment
  insert_imported_payment-Keeps qbo lines ids contact undeposited ar =
      search (keeps_rules, statement_rules, recompute_all-Keeps) depth 12

  import_payment-Keeps :
      (qbo : Json) (lines : List (QboPaymentLinePatch js)) (ids : List RowId) (o : Option RowId)
      → Keeps IsBalanced (import_payment js input qbo lines ids o)
  import_payment-Keeps qbo lines ids none = search leave-Keeps
  import_payment-Keeps qbo lines ids (some id) =
      search (keeps_rules, statement_rules, insert_imported_payment-Keeps, audit-Keeps) depth 16

  import_resolved-Keeps :
      (qbo : Json) (lines : List (QboPaymentLinePatch js)) (o : Option (List RowId))
      → Keeps IsBalanced (import_resolved js input qbo lines o)
  import_resolved-Keeps qbo lines none = search leave-Keeps
  import_resolved-Keeps qbo lines (some ids) =
      search (keeps_rules, resolve_contact-Keeps, import_payment-Keeps)

  import_lines-Keeps :
      (qbo : Json) (lines : List (QboPaymentLinePatch js))
      → Keeps IsBalanced (import_lines js input qbo lines)
  import_lines-Keeps qbo [] = search leave-Keeps
  import_lines-Keeps qbo (l ∷ ls) = search (keeps_rules, import_resolved-Keeps)

  pub import_unlinked_payment-Keeps :
      (qbo : Json) → Keeps IsBalanced (import_unlinked_payment js input qbo)
  unfolding import_unlinked_payment create_local_payment_from_qbo
  import_unlinked_payment-Keeps qbo = search (keeps_rules, leave-Keeps, import_lines-Keeps) depth 16

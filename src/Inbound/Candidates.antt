-- ===== src/Inbound/Candidates.antt =====
-- apps/api/src/qbo/inbound-sync.ts: the unlinked local records that a QBO record is matched with.
use mathlib.Core.Option
use invoicing_platform.Prelude.{
  Bool, true, false, ◌&&◌, not, Option, none, some, List, [], ◌∷◌, ◌==◌, if◌then◌else◌,
}
use invoicing_platform.Money.{text, format_cents}
use invoicing_platform.Database.{
  RowId, ContactRow, contact, transaction, SyncEntityType, TransactionRow, SyncLinkRow, Database,
}
use invoicing_platform.Payments.{is_invoice}
use invoicing_platform.Sync.Links.{find_link_by_local, entity_code}
use invoicing_platform.Sync.NaturalKey.{QboInvoiceLike, QboCustomerLike}
use invoicing_platform.Inbound.Body.{codes}

-- Is the record linked? The ids of `loadLinkedLocalIds`.
abbrev is_linked : RowId → SyncEntityType → RowId → List SyncLinkRow → Bool
is_linked org entity id [] = false
is_linked org entity id (l ∷ ls) =
    if l.org_id == org && entity_code l.entity_type == entity_code entity && l.local_id == id
    then true
    else is_linked org entity id ls

abbrev contact_candidate : ContactRow → QboCustomerLike
contact_candidate c = record {
  qbo_id = c.id;
  email = Option.map codes c.email;
  display_name = some (codes c.display_name);
}

abbrev contact_candidates_of : RowId → List SyncLinkRow → List ContactRow → List QboCustomerLike
contact_candidates_of org links [] = []
contact_candidates_of org links (c ∷ cs) =
    let rest = contact_candidates_of org links cs in
    if c.org_id == org && (c.is_customer && not (is_linked org contact c.id links))
    then contact_candidate c ∷ rest
    else rest

-- `loadContactCandidates`, as the matcher takes them.
unfoldable pub load_contact_candidates : RowId → Database → List QboCustomerLike
load_contact_candidates org db = contact_candidates_of org db.sync_links db.contacts

-- The QBO id of the linked contact of an invoice.
abbrev pub customer_qbo_id : RowId → Option RowId → Database → Option RowId
customer_qbo_id org none db = none
customer_qbo_id org (some id) db = elim (find_link_by_local org contact id db) [
  | none ↦ none
  | some l ↦ l.qbo_id
]

abbrev invoice_candidate : RowId → Database → TransactionRow → QboInvoiceLike
invoice_candidate org db t = record {
  qbo_id = t.id;
  doc_number = Option.map codes t.doc_number;
  total = text (format_cents t.total);
  txn_date = codes t.txn_date;
  customer_qbo_id = customer_qbo_id org t.contact_id db;
}

abbrev invoice_candidates_of : RowId → Database → List TransactionRow → List QboInvoiceLike
invoice_candidates_of org db [] = []
invoice_candidates_of org db (t ∷ ts) =
    let rest = invoice_candidates_of org db ts in
    if t.org_id == org && (is_invoice t.type && not (is_linked org transaction t.id db.sync_links))
    then invoice_candidate org db t ∷ rest
    else rest

unfoldable pub load_invoice_candidates : RowId → Database → List QboInvoiceLike
load_invoice_candidates org db = invoice_candidates_of org db db.transactions

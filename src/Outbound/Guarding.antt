-- ===== src/Outbound/Guarding.antt =====
-- What the outbound guards hold back, and that a record which QBO has is not created again.
use invoicing_platform.Prelude.{
  ℕ, ◌≡◌, refl, ap, ◌∙◌, first-update, true, false, Option, none, some,
}
use invoicing_platform.Database.{
  RowId, transaction, skipped, QboEntityType, SyncLinkRow, AuditLogRow, TransactionRow, Database,
  ok,
}
use invoicing_platform.Database.Statements.{write_audit_log}
use invoicing_platform.Sync.Links.{find_link_by_local, is_local_key}
use invoicing_platform.Sync.Links.Keys.{find_link_by_local-fits}
use invoicing_platform.Inbound.Body.{Json, JsRuntime}
use invoicing_platform.Inbound.Invoice.{find_local_invoice}
use invoicing_platform.Inbound.Payment.{find_local_payment}
use invoicing_platform.Inbound.Guards.{ApplyInboundEntityInput, InboundResult}
use invoicing_platform.Inbound.Apply.{apply_inbound_entity}
use invoicing_platform.Inbound.Linked.{IsLinkedChange}
use invoicing_platform.Inbound.Conflicts.{
  MeetsLocalChange, conflict_link, conflicted, change-conflicted,
}
use invoicing_platform.Inbound.Inert.{logged}
use invoicing_platform.Outbound.Builders.{JsOutput}
use invoicing_platform.Outbound.Effects.{QboClient, World, Eff}
use invoicing_platform.Outbound.Push.{PushResult, outbound_row, is_outbound_redundant}
use invoicing_platform.Sync.Links.{UpsertLinkInput}
use invoicing_platform.Outbound.Removal.{
  push_skipped, OutboundResult, OutboundParams, is_conflicted,
}
use invoicing_platform.Outbound.Documents.{
  push_unless_current, sync_document, sync_invoice_outbound,
}
use invoicing_platform.Outbound.PaymentPush.{sync_payment_outbound}

-- The documents that are pushed, and how each is found and pushed.
pub data DocumentType : Type 0 where
  invoice_document payment_document : DocumentType

abbrev pub find_document : DocumentType → RowId → RowId → Database → Option TransactionRow
find_document invoice_document = find_local_invoice
find_document payment_document = find_local_payment

-- A raised conflict leaves the documents and is on the link.
module _ (org id : RowId) (row : AuditLogRow) (db : Database) where
  find_document-conflicted :
      (type : DocumentType) (txn_id : RowId)
      → find_document type org txn_id (logged row (conflicted org id db))
        ≡ find_document type org txn_id db
  unfolding find_local_invoice find_local_payment
  find_document-conflicted invoice_document txn_id = refl
  find_document-conflicted payment_document txn_id = refl

  conflicted-is_conflicted :
      (link : SyncLinkRow)
      → find_link_by_local org transaction id db ≡ some link
      → is_conflicted (find_link_by_local org transaction id (logged row (conflicted org id db)))
        ≡ true
  unfolding find_link_by_local
  conflicted-is_conflicted link found =
      ap is_conflicted (
        first-update (is_local_key org transaction id) (is_local_key org transaction id)
          (conflict_link db.now) db.sync_links (λ l. refl))
      ∙ rw (found, find_link_by_local-fits org transaction id db found) refl

module _ (js : JsRuntime) (out : JsOutput) (q : QboClient) where
  abbrev pub sync_outbound : DocumentType → OutboundParams → Eff q OutboundResult
  sync_outbound invoice_document = sync_invoice_outbound js out q
  sync_outbound payment_document = sync_payment_outbound js out q

  -- The world after a skipped push: QBO is as it was, and one audit row is added.
  abbrev pub skipped_world : OutboundParams → RowId → World q → World q
  skipped_world params id w = record w {
    db =
        logged (outbound_row params.org_id params.user_id transaction id "outbound_sync" skipped)
          w.db;
  }

  -- A link in conflict blocks a push that is not forced.
  conflict-blocks :
      (type : DocumentType) (params : OutboundParams) (txn : TransactionRow) (w : World q)
      → params.force ≡ false
      → find_document type params.org_id params.txn_id w.db ≡ some txn
      → is_conflicted (find_link_by_local params.org_id transaction txn.id w.db) ≡ true
      → sync_outbound type params w ≡ (
        ok (record { status = push_skipped; qbo_id = none; reason = some "conflict_blocked" }),
        skipped_world params txn.id w,
      )
  unfolding sync_invoice_outbound sync_payment_outbound sync_document write_audit_log
  conflict-blocks invoice_document params txn w f found c = rw (found, f, c) refl
  conflict-blocks payment_document params txn w f found c = rw (found, f, c) refl

  -- A push that the link shows to be done already calls QBO in no way.
  pub current-skips :
      (params : OutboundParams) (txn : TransactionRow) (type : QboEntityType)
      (link_of : PushResult → ℕ → UpsertLinkInput) (body : Json) (w : World q)
      → params.force ≡ false
      → is_outbound_redundant (find_link_by_local params.org_id transaction txn.id w.db) txn.version
        ≡ true
      → (id : Option RowId) × (push_unless_current js out q params txn type link_of body w ≡ (
        ok (record { status = push_skipped; qbo_id = id; reason = some "already_current" }),
        skipped_world params txn.id w,
      ))
  unfolding push_unless_current write_audit_log
  current-skips params txn type link_of body w f r = rw (f, r) (_, refl)

  -- Once an inbound change of a record raised a conflict, a push of the local record that is not forced makes
  -- no call of QBO, whatever QBO would answer: it is skipped as blocked and adds an audit row. The link is the
  -- one that both the QBO record and the local record have.
  pub conflict-blocks_push :
      (input : ApplyInboundEntityInput) (link : SyncLinkRow) (qbo : Json) (t : TransactionRow)
      (db : Database) (type : DocumentType) (params : OutboundParams) (remote : q.Remote)
      → IsLinkedChange input db link t qbo
      → MeetsLocalChange js input link t qbo
      → find_link_by_local input.org_id transaction t.id db ≡ some link
      → params.org_id ≡ input.org_id
      → params.force ≡ false
      → find_document type input.org_id params.txn_id db ≡ some t
      → (r : InboundResult) × ((held : Database) × ((apply_inbound_entity js input db
              ≡ ok (r, held))
            × (sync_outbound type params (record { db = held; remote = remote }) ≡ (
              ok (record {
                status = push_skipped;
                qbo_id = none;
                reason = some "conflict_blocked";
              }),
              skipped_world params t.id (record { db = held; remote = remote }),
            ))))
  conflict-blocks_push input link qbo t db type params remote change meets linked org unforced
        found =
      let (row, e) = change-conflicted js input link qbo t db change meets in
      let held = logged row (conflicted input.org_id t.id db) in
      (
        _,
        (
          held,
          (
            e,
            conflict-blocks type params t (record { db = held; remote = remote }) unforced
                (rw org
                  (find_document-conflicted input.org_id t.id row db type params.txn_id ∙ found))
                (rw org (conflicted-is_conflicted input.org_id t.id row db link linked)),
          ),
        ),
      )

-- ===== src/Inbound/Outdated.antt =====
-- After an applied change was recorded on the link, what is no newer does nothing.
use Prim.Native.String.{String}
use invoicing_platform.Prelude.{
  ℕ, ◌≡◌, inr, refl, ◌∙◌, false, none, some, first, update, first-update,
}
use invoicing_platform.Prelude.Int.{ℤ, ◌≤ℤ◌}
use invoicing_platform.Database.{
  RowId, QboEntityType, transaction, SyncLinkRow, TransactionRow, Database, ok,
}
use invoicing_platform.Database.Statements.{write_audit_log}
use invoicing_platform.Sync.Ordering.{parse_sync_token}
use invoicing_platform.Sync.Links.{
  is_local_key, is_qbo_key, synced_link, find_link_by_qbo, find_link_by_local, mark_synced,
}
use invoicing_platform.Sync.Links.Keys.{find_link_by_local-fits}
use invoicing_platform.Inbound.Inert.{IsInert, linked-IsInert}
use invoicing_platform.Inbound.Linked.{IsLinkedChange, IsLater, later-IsLinkedChange}
use invoicing_platform.Inbound.Apply.{apply_inbound_entity}
use invoicing_platform.Inbound.Invoice.{find_local_invoice}
use invoicing_platform.Inbound.Payment.{find_local_payment}
use invoicing_platform.Inbound.Settled.{settled_link, outdated-stale}
use invoicing_platform.Inbound.Body.{Json, JsRuntime}
use invoicing_platform.Inbound.Mappers.{qbo_sync_token}
use invoicing_platform.Inbound.Guards.{ApplyInboundEntityInput, InboundAction, audit, finish}

-- The link is found under its QBO id as it was settled.
find-settled :
    (js : JsRuntime) (org id entity_id : RowId) (qbo : Json) (link : SyncLinkRow) (version : ℕ)
    (db : Database) (type : QboEntityType)
    → find_link_by_local org transaction id db ≡ some link
    → find_link_by_qbo org type entity_id db ≡ some link
    → first (is_qbo_key org type entity_id) (
        update
          (is_local_key org transaction id)
          (λ l. settled_link js qbo l db.now version)
          db.sync_links)
      ≡ some (settled_link js qbo link db.now version)
unfolding find_link_by_qbo synced_link
find-settled js org id entity_id qbo link version db type found e =
    first-update (is_qbo_key org type entity_id) (is_local_key org transaction id)
      (λ l. settled_link js qbo l db.now version) db.sync_links (λ l. refl)
    ∙ rw (e, find_link_by_local-fits org transaction id db found) refl

-- Once an applied change is recorded, a later change without a bypass that is no newer by its sync token adds
-- one audit row and writes nothing else, where both tokens are numbers. The database is the one in which the
-- record's row has been written, and its link is the one under both its QBO id and the row's id.
pub finish-outdates :
    (js : JsRuntime) (input later : ApplyInboundEntityInput) (t written : TransactionRow)
    (qbo qbo' : Json) (action : String) (result : InboundAction) (link : SyncLinkRow)
    (token token' : ℤ) (db : Database)
    → IsLinkedChange input db link written qbo
    → find_link_by_local input.org_id transaction t.id db ≡ some link
    → parse_sync_token js.parsers (qbo_sync_token qbo) ≡ some token
    → IsLater input later qbo'
    → later.bypass_conflict ≡ false
    → parse_sync_token js.parsers (qbo_sync_token qbo') ≡ some token'
    → token' ≤ℤ token
    → (out : Database) × ((finish js input t qbo action result db
          ≡ ok (record { action = result; local_id = some t.id; reason = none }, out))
        × IsInert (apply_inbound_entity js later) out)
unfolding finish audit write_audit_log mark_synced find_local_invoice find_local_payment
    find_link_by_qbo
finish-outdates js input later t written qbo qbo' action result link token token' db change found h
      is_later no_bypass k le =
    (
      _,
      (
        refl,
        linked-IsInert js later (settled_link js qbo link db.now t.version) qbo' written _
            (later-IsLinkedChange input later db _ link (settled_link js qbo link db.now t.version)
              written written qbo qbo' is_later change
              (λ type e.
                find-settled js input.org_id t.id input.entity_id qbo link t.version db type found
                  e)
              (λ i e. e) (λ i e. e))
            (inr (
              inr (
                no_bypass,
                inr (outdated-stale js qbo qbo' link db.now t.version token token' h k le),
              ))),
      ),
    )

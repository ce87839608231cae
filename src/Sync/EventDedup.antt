-- ===== src/Sync/EventDedup.antt =====
-- apps/api/src/qbo/event-dedup.ts: the key of an inbound event, and the table of the events that are
-- done. The proofs are in the modules below.
pub mod Injective
pub mod Recording
use invoicing_platform.Prelude.{
  ℕ, Bool, true, false, ◌&&◌, Option, none, some, List, [], ◌∷◌, ◌++◌, ◌==◌, first, is_some,
}
use invoicing_platform.Money.{Text, same_text}
use invoicing_platform.Database.{RowId, ProcessedEventRow, Database, ok, Tx}

pub record WebhookEventIdentity : Type 0 where
  pub realm_id : Text
  pub name : Text
  pub id : Text
  pub operation : Text
  pub last_updated : Option Text

-- `${a}:${b}`
abbrev pub join : Text → Text → Text
join a b = a ++ (b':' ∷ b)

-- `lastUpdated` counts when it is a text that is not empty.
abbrev pub with_time : Text → Option Text → Text
with_time operation none = operation
with_time operation (some []) = operation
with_time operation (some (c ∷ s)) = join operation (c ∷ s)

unfoldable pub build_event_key : WebhookEventIdentity → Text
build_event_key e = join e.realm_id (join e.name (join e.id (with_time e.operation e.last_updated)))

-- `processed_events_org_event_unique`
abbrev pub is_event : RowId → Text → ProcessedEventRow → Bool
is_event org key row = row.org_id == org && same_text row.event_key key

abbrev pub insert_new : ProcessedEventRow → Option ProcessedEventRow → Tx Bool
insert_new row (some _) db = ok (false, db)
insert_new row none db =
    ok (true, record db { processed_events = db.processed_events ++ (row ∷ []) })

-- `INSERT … ON CONFLICT (org_id, event_key) DO NOTHING RETURNING id`: was a row inserted?
unfoldable pub record_event_if_new : RowId → WebhookEventIdentity → Tx Bool
record_event_if_new org e db =
    insert_new (record { org_id = org; event_key = build_event_key e })
      (first (is_event org (build_event_key e)) db.processed_events) db

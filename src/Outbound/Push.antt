-- ===== src/Outbound/Push.antt =====
-- apps/api/src/qbo/outbound-sync.ts: the push of one record, and of the records that a document refers to.
use mathlib.Core.Option
use Prim.Native.String.{String}
use invoicing_platform.Prelude.{
  ℕ, Bool, true, false, leb, Option, none, some, [], ◌∷◌, ◌==◌, if◌then◌else◌,
}
use invoicing_platform.Money.{Text}
use invoicing_platform.Database.{
  RowId, SyncEntityType, contact, account, item, transaction, synced, outbound, SyncOutcome,
  success, failure, QboEntityType, qbo_customer, qbo_account, qbo_item, ContactRow, AccountRow,
  ItemRow, SyncLinkRow, AuditLogRow, Database, Error, not_found, failed_write, gets, some_or_raise,
}
use invoicing_platform.Database.Statements.{write_audit_log}
use invoicing_platform.Accounts.{get_contact, find_account}
use invoicing_platform.Sync.Links.{UpsertLinkInput, find_link_by_local, state_code, upsert_link}
use invoicing_platform.Sync.Links.Failures.{mark_failed}
use invoicing_platform.Inbound.Body.{
  Json, boolean, text_value, object, Fields, close, field, get, as_text, non_empty, codes,
  JsRuntime,
}
use invoicing_platform.Inbound.Apply.{entity_type_name}
use invoicing_platform.Inbound.Invoice.{find_item}
use invoicing_platform.Outbound.Builders.{
  JsOutput, build_qbo_customer, build_qbo_account, build_qbo_item,
}
use invoicing_platform.Outbound.Effects.{
  QboClient, Eff, done, throw, run, call, try_catch, ◌>>=◌, ◌>>◌,
}

-- The records that a document refers to: `Exclude<SyncEntityType, 'transaction'>`.
pub data RefType : Type 0 where
  contact_ref account_ref item_ref : RefType

abbrev pub entity_of : RefType → SyncEntityType
entity_of contact_ref = contact
entity_of account_ref = account
entity_of item_ref = item

-- `resolveQboType` of a reference.
abbrev pub qbo_type_of : RefType → QboEntityType
qbo_type_of contact_ref = qbo_customer
qbo_type_of account_ref = qbo_account
qbo_type_of item_ref = qbo_item

pub record PushResult : Type 0 where
  pub qbo_id : RowId
  pub sync_token : Option Text

abbrev at_least : Option ℕ → ℕ → Bool
at_least none version = false
at_least (some v) version = leb version v

abbrev redundant : Option RowId → Option ℕ → ℕ → Bool
redundant none stored version = false
redundant (some id) stored version = at_least stored version

unfoldable pub is_outbound_redundant : Option SyncLinkRow → ℕ → Bool
is_outbound_redundant none version = false
is_outbound_redundant (some link) version = redundant link.qbo_id link.local_version version

-- The fields of a body with more fields at the end.
abbrev append_fields : Fields → Fields → Fields
append_fields close more = more
append_fields (field k v rest) more = field k v (append_fields rest more)

abbrev with_fields : Json → Fields → Json
with_fields (object fields) more = object (append_fields fields more)
with_fields body more = body

abbrev entity_name : SyncEntityType → String
entity_name contact = "contact"
entity_name account = "account"
entity_name item = "item"
entity_name transaction = "transaction"

abbrev pub outbound_row :
    RowId → Option RowId → SyncEntityType → RowId → String → SyncOutcome → AuditLogRow
outbound_row org user entity id action outcome = record {
  org_id = org;
  user_id = user;
  entity_type = entity_name entity;
  local_id = some id;
  action = action;
  direction = outbound;
  outcome = outcome;
}

abbrev pub token_of : Option Json → Option Text
token_of entity = Option.map codes (as_text (get "SyncToken" entity))

module _ (js : JsRuntime) (out : JsOutput) (q : QboClient) where
  abbrev pub body_of : QboEntityType → Json → Option Json
  body_of type envelope = get (entity_type_name type) (some envelope)

  unfoldable pub refetch_sync_token : QboEntityType → RowId → Eff q (Option Text)
  refetch_sync_token type id = do
    envelope ← call (q.get_entity type id)
    done (token_of (body_of type envelope))

  -- `link.qboSyncToken ?? (await refetchSyncToken(…))`, and the throw when there is none.
  abbrev stored_or_refetched : Option Text → QboEntityType → RowId → Eff q (Option Text)
  stored_or_refetched (some t) type id = done (some t)
  stored_or_refetched none type id = refetch_sync_token type id

  abbrev required_token : Option Text → Eff q Text
  required_token none = throw failed_write
  required_token (some []) = throw failed_write
  required_token (some (c ∷ s)) = done (c ∷ s)

  abbrev pub sync_token_for : Option Text → QboEntityType → RowId → Eff q Text
  sync_token_for stored type id = do
    token ← stored_or_refetched stored type id
    required_token token

  -- `if (!result?.Id) throw …`
  abbrev required_id : Option Json → Option String → Eff q PushResult
  required_id entity none = throw failed_write
  required_id entity (some id) =
      done (record { qbo_id = js.qbo_id id; sync_token = token_of entity })

  abbrev result_of : QboEntityType → Json → Eff q PushResult
  result_of type envelope =
      let entity = body_of type envelope in
      required_id entity (non_empty (as_text (get "Id" entity)))

  abbrev update_body : Json → RowId → Text → Json
  update_body body id token = with_fields body (
      field "Id" (text_value (out.qbo_text id))
        (field "SyncToken" (text_value (out.text_of token)) (field "sparse" (boolean true) close)))

  abbrev push_known : QboEntityType → Option Text → Option RowId → Json → Eff q PushResult
  push_known type stored none body = do
    envelope ← call (q.create_entity type body)
    result_of type envelope
  push_known type stored (some id) body = do
    token ← sync_token_for stored type id
    envelope ← call (q.update_entity type (update_body body id token))
    result_of type envelope

  -- Create or update, by the link.
  unfoldable pub push_entity : QboEntityType → Option SyncLinkRow → Json → Eff q PushResult
  push_entity type none body = push_known type none none body
  push_entity type (some link) body = push_known type link.qbo_sync_token link.qbo_id body

  abbrev customer_body : ContactRow → Json
  customer_body c =
      build_qbo_customer
        (record { display_name = c.display_name; email = c.email; phone = c.phone })

  abbrev account_body : AccountRow → Json
  account_body a = build_qbo_account (record { name = a.name; type = a.type; subtype = a.subtype })

  abbrev item_body : ItemRow → Json
  item_body i =
      build_qbo_item out
        (record { name = i.name; is_service = i.is_service; default_price = i.default_price })

  unfoldable pub build_ref_body : RowId → RefType → RowId → Database → Option Json
  build_ref_body org contact_ref id db = Option.map customer_body (get_contact org id db)
  build_ref_body org account_ref id db = Option.map account_body (find_account org id db)
  build_ref_body org item_ref id db = Option.map item_body (find_item js org id db)

  abbrev pushed_ref_link : RowId → RefType → RowId → PushResult → ℕ → UpsertLinkInput
  pushed_ref_link org type id result now = record {
    org_id = org;
    entity_type = entity_of type;
    local_id = id;
    qbo_type = qbo_type_of type;
    qbo_id = result.qbo_id;
    state = some synced;
    local_version = none;
    qbo_sync_token = some result.sync_token;
    last_synced_at = some (some now);
    conflict_detected_at = none;
    retry_count = some 0;
    next_retry_at = some none;
    last_error = some none;
  }

  abbrev push_ref : RowId → RefType → RowId → Option SyncLinkRow → Eff q RowId
  push_ref org type id existing = do
    found ← run (gets (build_ref_body org type id))
    body ← run (some_or_raise found not_found)
    result ← push_entity (qbo_type_of type) existing body
    now ← run (gets (λ db. db.now))
    run (upsert_link (pushed_ref_link org type id result now))
    run (write_audit_log (outbound_row org none (entity_of type) id "outbound_sync" success))
    done result.qbo_id

  abbrev fail_ref : RowId → RefType → RowId → Error → Eff q RowId
  fail_ref org type id e = do
    run (mark_failed org (entity_of type) id (qbo_type_of type) (q.message e))
    run (write_audit_log (outbound_row org none (entity_of type) id "outbound_sync" failure))
    throw e

  abbrev is_synced : SyncLinkRow → Bool
  is_synced link = state_code link.state == state_code synced

  -- The QBO id of a link that is synced.
  abbrev pub synced_id : Option SyncLinkRow → Option RowId
  synced_id none = none
  synced_id (some link) = if is_synced link then link.qbo_id else none

  abbrev ensure_known : RowId → RefType → RowId → Option SyncLinkRow → Option RowId → Eff q RowId
  ensure_known org type id existing (some qbo_id) = done qbo_id
  ensure_known org type id existing none =
      try_catch (push_ref org type id existing) (fail_ref org type id)

  unfoldable pub ensure_entity_synced : RowId → RefType → RowId → Eff q RowId
  ensure_entity_synced org type id = do
    existing ← run (gets (find_link_by_local org (entity_of type) id))
    ensure_known org type id existing (synced_id existing)

-- ===== src/Webhook.antt =====
-- apps/api/src/routes/qbo-webhook.ts: the events of a webhook call, each claimed and applied in one
-- transaction. The answer of the refetch from QBO comes with each delivery. The proofs are in Once.
pub mod Once
use Prim.Native.String.{String}
use invoicing_platform.Prelude.{
  ℕ, Bool, true, false, Option, none, some, List, [], ◌∷◌, str_eq, if◌then◌else◌,
}
use mathlib.Core.Option
use invoicing_platform.Database.{
  RowId, QboEntityType, qbo_customer, qbo_account, qbo_item, qbo_invoice, qbo_payment, inbound,
  SyncOutcome, failure, skipped, AuditLogRow, Database, Result, ok, err, Tx, pure, transact, ◌>>=◌,
  ◌>>◌,
}
use invoicing_platform.Database.Statements.{write_audit_log}
use invoicing_platform.Sync.EventDedup.{WebhookEventIdentity, record_event_if_new}
use invoicing_platform.Inbound.Body.{Json, JsRuntime, codes}
use invoicing_platform.Inbound.Guards.{Operation, ApplyInboundEntityInput}
use invoicing_platform.Inbound.Apply.{operation_name, apply_inbound_entity}

-- `mapNotificationToEntityType` of qbo/refetch.ts
unfoldable pub map_notification_to_entity_type : String → Option QboEntityType
map_notification_to_entity_type name =
    if str_eq name "Invoice"
    then some qbo_invoice
    else if str_eq name "Payment"
    then some qbo_payment
    else if str_eq name "Customer"
    then some qbo_customer
    else if str_eq name "Account"
    then some qbo_account
    else if str_eq name "Item"
    then some qbo_item
    else none

pub record WebhookEntity : Type 0 where
  pub name : String
  pub id : String
  pub operation : Operation
  pub last_updated : Option String

-- An entity of a notification, with the organisation of its connection. No body is a refetch that threw.
pub record Delivery : Type 0 where
  pub org_id : RowId
  pub realm_id : String
  pub entity : WebhookEntity
  pub refetched : Option Json

abbrev pub identity : Delivery → WebhookEventIdentity
identity d = record {
  realm_id = codes d.realm_id;
  name = codes d.entity.name;
  id = codes d.entity.id;
  operation = codes (operation_name d.entity.operation);
  last_updated = Option.map codes d.entity.last_updated;
}

abbrev pub webhook_row : Delivery → String → SyncOutcome → AuditLogRow
webhook_row d action outcome = record {
  org_id = d.org_id;
  user_id = none;
  entity_type = d.entity.name;
  local_id = none;
  action = action;
  direction = inbound;
  outcome = outcome;
}

-- What is left of a step that may throw: the result and the database.
abbrev pub Outcome : Type 0
Outcome = Result (Unit {0}) × Database

abbrev pub go_on : Outcome → (Database → Outcome) → Outcome
go_on (ok u, db) rest = rest db
go_on (err e, db) rest = (err e, db)

module _ (js : JsRuntime) where
  abbrev pub apply_input : Delivery → QboEntityType → Json → ApplyInboundEntityInput
  apply_input d type body = record {
    org_id = d.org_id;
    entity_type = type;
    entity_name = d.entity.name;
    entity_id = js.qbo_id d.entity.id;
    operation = d.entity.operation;
    refetched = body;
    bypass_conflict = false;
  }

  abbrev pub apply_if_new : Delivery → QboEntityType → Json → Bool → Tx Unit
  apply_if_new d type body false = write_audit_log (webhook_row d "qbo.webhook.duplicate" skipped)
  apply_if_new d type body true = apply_inbound_entity js (apply_input d type body) >> pure tt

  -- The claim of the event and the apply of its change share one transaction.
  unfoldable pub claim_and_apply : Delivery → QboEntityType → Json → Tx Unit
  claim_and_apply d type body = do
    is_new ← record_event_if_new d.org_id (identity d)
    apply_if_new d type body is_new

  abbrev pub handle_fetched : Delivery → QboEntityType → Option Json → Database → Outcome
  handle_fetched d type none =
      transact (write_audit_log (webhook_row d "qbo.webhook.refetch_failed" failure))
  handle_fetched d type (some body) = transact (claim_and_apply d type body)

  abbrev pub handle_typed : Delivery → Option QboEntityType → Database → Outcome
  handle_typed d none = transact (write_audit_log (webhook_row d "qbo.webhook.unmapped" skipped))
  handle_typed d (some type) = handle_fetched d type d.refetched

  unfoldable pub handle_entity : Delivery → Database → Outcome
  handle_entity d = handle_typed d (map_notification_to_entity_type d.entity.name)

  -- The entities of a call, one after the other; one that throws ends the call.
  unfoldable pub handle_all : List Delivery → Database → Outcome
  handle_all [] db = (ok tt, db)
  handle_all (d ∷ ds) db = go_on (handle_entity d db) (handle_all ds)

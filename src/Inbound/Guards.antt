-- ===== src/Inbound/Guards.antt =====
-- apps/api/src/qbo/inbound-sync.ts: the input and result of an apply, its audit row, and the guards that
-- an apply to a linked record passes: staleness, a conflict, a held conflict.
use mathlib.Core.Option
use Prim.Native.String.{String}
use invoicing_platform.Prelude.{
  ◌+◌, Bool, true, false, ◌&&◌, not, Option, none, some, ◌==◌, is_some, if◌then◌else◌,
}
use invoicing_platform.Prelude.Int.{pos}
use invoicing_platform.Database.{
  RowId, transaction, conflict, SyncOutcome, success, skipped, inbound, QboEntityType, SyncLinkRow,
  TransactionRow, AuditLogRow, Tx, pure, gets, ◌>>=◌, ◌>>◌,
}
use invoicing_platform.Database.Statements.{write_audit_log}
use invoicing_platform.Payments.{is_voided}
use invoicing_platform.Sync.Conflict.{is_both_sides_conflict}
use invoicing_platform.Sync.Ordering.{is_stale_inbound_apply}
use invoicing_platform.Sync.Links.{state_code, mark_synced, mark_conflict}
use invoicing_platform.Inbound.Body.{Json, JsRuntime}
use invoicing_platform.Inbound.Mappers.{qbo_sync_token, qbo_last_updated}

-- `WebhookEntity.operation`
pub data Operation : Type 0 where
  create_op update_op delete_op merge_op void_op emailed_op : Operation

pub data InboundAction : Type 0 where
  updated voided_locally deleted_locally linked created skipped_apply unmatched in_conflict :
      InboundAction

pub record InboundResult : Type 0 where
  pub action : InboundAction
  pub local_id : Option RowId
  pub reason : Option String

pub record ApplyInboundEntityInput : Type 0 where
  pub org_id : RowId
  pub entity_type : QboEntityType
  pub entity_name : String
  pub entity_id : RowId
  pub operation : Operation
  pub refetched : Json
  pub bypass_conflict : Bool

abbrev pub is_delete : Operation → Bool
is_delete delete_op = true
is_delete _ = false

abbrev pub is_void : Operation → Bool
is_void void_op = true
is_void _ = false

abbrev pub is_void_or_delete : Operation → Bool
is_void_or_delete void_op = true
is_void_or_delete delete_op = true
is_void_or_delete _ = false

abbrev pub is_noop : Operation → Bool
is_noop merge_op = true
is_noop emailed_op = true
is_noop _ = false

abbrev pub inbound_row : ApplyInboundEntityInput → Option RowId → String → SyncOutcome → AuditLogRow
inbound_row input local_id action outcome = record {
  org_id = input.org_id;
  user_id = none;
  entity_type = input.entity_name;
  local_id = local_id;
  action = action;
  direction = inbound;
  outcome = outcome;
}

unfoldable pub audit : ApplyInboundEntityInput → Option RowId → String → SyncOutcome → Tx Unit
audit input local_id action outcome = write_audit_log (inbound_row input local_id action outcome)

-- An audit row and a result, and nothing else: every skip and unmatched result.
unfoldable pub leave :
    ApplyInboundEntityInput
    → Option RowId
    → String
    → SyncOutcome
    → Option RowId
    → InboundAction
    → String
    → Tx InboundResult
leave input audited action outcome local_id result reason = do
  audit input audited action outcome
  pure (record { action = result; local_id = local_id; reason = some reason })

abbrev pub skip : ApplyInboundEntityInput → Option RowId → String → Tx InboundResult
skip input local_id reason =
    leave input local_id "qbo.inbound.skip" skipped local_id skipped_apply reason

-- `if (result) return result;` before the rest.
abbrev pub unless_done : Option InboundResult → Tx InboundResult → Tx InboundResult
unless_done (some r) rest = pure r
unless_done none rest = rest

abbrev pub as_done : InboundResult → Tx (Option InboundResult)
as_done r = pure (some r)

-- A conflict is marked on the link, audited and returned.
unfoldable pub raise_conflict : ApplyInboundEntityInput → RowId → String → Tx InboundResult
raise_conflict input id reason = do
  mark_conflict input.org_id transaction id
  leave input (some id) "qbo.inbound.conflict" skipped (some id) in_conflict reason

-- What an apply does to a local row that is there: `applyLinkedInvoice` and `applyLinkedPayment` guard it
-- in the same way and differ in this.
pub record Handlers : Type 0 where
  pub deleted : TransactionRow → Tx InboundResult
  pub voided : TransactionRow → Tx InboundResult
  pub patched : TransactionRow → Tx InboundResult

abbrev pub is_in_conflict : SyncLinkRow → Bool
is_in_conflict link = state_code link.state == state_code conflict

module _ (js : JsRuntime) where
  unfoldable pub is_link_stale : SyncLinkRow → Json → Bool
  is_link_stale link qbo =
      is_stale_inbound_apply js.parsers
        (record {
          sync_token = link.qbo_sync_token;
          last_synced_at = Option.map pos link.last_synced_at;
        })
        (record { sync_token = qbo_sync_token qbo; last_updated = qbo_last_updated qbo })

  abbrev pub has_conflict : SyncLinkRow → TransactionRow → Json → Bool
  has_conflict link existing qbo =
      is_both_sides_conflict
        (record { stored_local_version = link.local_version; txn_version = existing.version })
        (is_link_stale link qbo)

  unfoldable pub handle_conflict_if_any :
      ApplyInboundEntityInput → SyncLinkRow → TransactionRow → Json → Tx (Option InboundResult)
  handle_conflict_if_any input link existing qbo =
      if input.bypass_conflict
      then pure none
      else if not (has_conflict link existing qbo)
      then pure none
      else (raise_conflict input existing.id "both_sides_changed" >>= as_done)

  unfoldable pub handle_already_conflict_hold :
      ApplyInboundEntityInput → SyncLinkRow → TransactionRow → Json → Tx (Option InboundResult)
  handle_already_conflict_hold input link existing qbo =
      if input.bypass_conflict
      then pure none
      else if not (is_in_conflict link)
      then pure none
      else if is_link_stale link qbo
      then (skip input (some existing.id) "stale_ignored" >>= as_done)
      else (leave input (some existing.id) "qbo.inbound.conflict_held" skipped (some existing.id)
            in_conflict "conflict_held"
          >>= as_done)

  -- `if (!input.bypassConflict && isLinkStale(link, qbo)) …`, then the conflict check, then the rest.
  abbrev pub if_current :
      ApplyInboundEntityInput
      → SyncLinkRow
      → TransactionRow
      → Json
      → Tx InboundResult
      → Tx InboundResult
  if_current input link existing qbo rest =
      if not input.bypass_conflict && is_link_stale link qbo
      then skip input (some existing.id) "stale_ignored"
      else (do
        conflicting ← handle_conflict_if_any input link existing qbo
        unless_done conflicting rest)

  -- What every applied change ends with: the link is synced at the new version, and the result.
  unfoldable pub finish :
      ApplyInboundEntityInput → TransactionRow → Json → String → InboundAction → Tx InboundResult
  finish input existing qbo action result = do
    now ← gets (λ db. db.now)
    mark_synced input.org_id transaction existing.id (record {
      qbo_sync_token = qbo_sync_token qbo;
      local_version = some (existing.version + 1);
      last_synced_at = some now;
    })
    audit input (some existing.id) action success
    pure (record { action = result; local_id = some existing.id; reason = none })

  -- What the operation asks of a record that is neither deleted nor held.
  unfoldable pub apply_operation :
      ApplyInboundEntityInput → SyncLinkRow → Json → Handlers → TransactionRow → Tx InboundResult
  apply_operation input link qbo handlers existing =
      if is_delete input.operation
      then if_current input link existing qbo (handlers.deleted existing)
      else if is_void input.operation
      then (if is_voided existing.status
          then skip input (some existing.id) "already_void"
          else if_current input link existing qbo (handlers.voided existing))
      else if is_voided existing.status
      then skip input (some existing.id) "local_already_void_no_unvoid"
      else if_current input link existing qbo (handlers.patched existing)

  unfoldable pub apply_row :
      ApplyInboundEntityInput → SyncLinkRow → Json → Handlers → TransactionRow → Tx InboundResult
  apply_row input link qbo handlers existing =
      if is_some existing.deleted_at then skip input (some existing.id) "already_deleted" else (do
        held ← handle_already_conflict_hold input link existing qbo
        unless_done held (apply_operation input link qbo handlers existing))

  abbrev pub apply_found :
      ApplyInboundEntityInput
      → SyncLinkRow
      → Json
      → Handlers
      → Option TransactionRow
      → Tx InboundResult
  apply_found input link qbo handlers none = skip input none "linked_local_row_missing"
  apply_found input link qbo handlers (some existing) = apply_row input link qbo handlers existing

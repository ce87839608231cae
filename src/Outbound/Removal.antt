-- ===== src/Outbound/Removal.antt =====
-- apps/api/src/qbo/outbound-sync.ts: the result of a push, its failure, and the void and the delete of a document.
use mathlib.Core.Option
use Prim.Native.String.{String}
use invoicing_platform.Prelude.{Bool, true, false, Option, none, some, ◌==◌, or_default}
use invoicing_platform.Money.{Text}
use invoicing_platform.Database.{
  RowId, transaction, conflict, failed, SyncOutcome, success, failure, QboEntityType,
  TransactionRow, SyncLinkRow, Error, Result, gets,
}
use invoicing_platform.Database.Statements.{write_audit_log}
use invoicing_platform.Sync.Links.{find_link_by_local, state_code, mark_synced, mark_conflict}
use invoicing_platform.Sync.Links.Failures.{mark_failed, delete_never_synced_failed_link}
use invoicing_platform.Inbound.Body.{Json, JsRuntime}
use invoicing_platform.Outbound.Builders.{JsOutput}
use invoicing_platform.Outbound.Effects.{QboClient, Eff, done, run, call, try_catch, ◌>>=◌, ◌>>◌}
use invoicing_platform.Outbound.Push.{outbound_row, token_of, body_of, sync_token_for}

pub data OutboundStatus : Type 0 where
  pushed push_failed push_skipped : OutboundStatus

pub record OutboundResult : Type 0 where
  pub status : OutboundStatus
  pub qbo_id : Option RowId
  pub reason : Option String

pub record OutboundParams : Type 0 where
  pub org_id : RowId
  pub txn_id : RowId
  pub user_id : Option RowId
  pub force : Bool

abbrev pub is_conflicted : Option SyncLinkRow → Bool
is_conflicted none = false
is_conflicted (some link) = state_code link.state == state_code conflict

abbrev is_failed : Option SyncLinkRow → Bool
is_failed none = false
is_failed (some link) = state_code link.state == state_code failed

-- A link and its QBO id, when it has one.
abbrev pub with_qbo_id : Option SyncLinkRow → Option (SyncLinkRow × RowId)
with_qbo_id none = none
with_qbo_id (some link) = Option.map (λ id. (link, id)) link.qbo_id

module _ (q : QboClient) where
  -- The two ways to take a document back at QBO.
  pub record Removal : Type 0 where
    pub action : String
    pub send : QboEntityType → RowId → Text → q.Remote → Result Json × q.Remote

  abbrev pub audit_push : OutboundParams → RowId → String → SyncOutcome → Eff q Unit
  audit_push params id action outcome =
      run
        (write_audit_log (outbound_row params.org_id params.user_id transaction id action outcome))

  abbrev mark_failure :
      OutboundParams → QboEntityType → RowId → Error → Bool → Eff q (Option SyncLinkRow)
  mark_failure params type id e true = run (mark_conflict params.org_id transaction id)
  mark_failure params type id e false =
      run (mark_failed params.org_id transaction id type (q.message e))

  unfoldable pub fail_outbound :
      OutboundParams → QboEntityType → RowId → String → Error → Eff q OutboundResult
  fail_outbound params type id action e = do
    mark_failure params type id e params.force
    audit_push params id action failure
    done (record { status = push_failed; qbo_id = none; reason = some (q.message e) })

  -- Nothing reached QBO: a failed link leaves the retry queue.
  abbrev clear_if_failed : OutboundParams → RowId → Bool → Eff q Unit
  clear_if_failed params id true =
      run (delete_never_synced_failed_link params.org_id transaction id)
  clear_if_failed params id false = done tt

module _ (js : JsRuntime) (out : JsOutput) (q : QboClient) where
  abbrev send_removal :
      Removal q
      → OutboundParams
      → QboEntityType
      → TransactionRow
      → SyncLinkRow
      → RowId
      → Eff q OutboundResult
  send_removal removal params type txn link id = do
    token ← sync_token_for js out q link.qbo_sync_token type id
    envelope ← call (removal.send type id token)
    now ← run (gets (λ db. db.now))
    run (
        mark_synced params.org_id transaction txn.id (record {
          qbo_sync_token = some (or_default (token_of (body_of js out q type envelope)) token);
          local_version = some txn.version;
          last_synced_at = some now;
        }))
    audit_push q params txn.id removal.action success
    done (record { status = pushed; qbo_id = some id; reason = none })

  abbrev remove_linked :
      Removal q
      → OutboundParams
      → QboEntityType
      → TransactionRow
      → Option SyncLinkRow
      → Option (SyncLinkRow × RowId)
      → Eff q OutboundResult
  remove_linked removal params type txn found none = do
    clear_if_failed q params txn.id (is_failed found)
    done (record { status = push_skipped; qbo_id = none; reason = none })
  remove_linked removal params type txn found (some (link, id)) =
      try_catch (send_removal removal params type txn link id)
        (fail_outbound q params type txn.id removal.action)

  unfoldable pub remove_document :
      Removal q → OutboundParams → QboEntityType → TransactionRow → Eff q OutboundResult
  remove_document removal params type txn = do
    link ← run (gets (find_link_by_local params.org_id transaction txn.id))
    remove_linked removal params type txn link (with_qbo_id link)

  unfoldable pub void_document :
      OutboundParams → QboEntityType → TransactionRow → Eff q OutboundResult
  void_document = remove_document (record { action = "outbound_void"; send = q.void_entity })

  unfoldable pub delete_document :
      OutboundParams → QboEntityType → TransactionRow → Eff q OutboundResult
  delete_document = remove_document (record { action = "outbound_delete"; send = q.delete_entity })

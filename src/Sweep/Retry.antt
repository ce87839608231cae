-- ===== src/Sweep/Retry.antt =====
-- apps/api/src/qbo/retry-sweep.ts: one link is tried again, and the sweep over the links that are due.
use Prim.Native.String.{String}
use invoicing_platform.Prelude.{
  ℕ, ◌+◌, Bool, true, false, ◌&&◌, not, Option, none, some, List, [], ◌∷◌, ◌==◌, first, is_some,
  select, if◌then◌else◌,
}
use invoicing_platform.Database.{
  RowId, SyncEntityType, contact, account, item, transaction, synced, failed, QboEntityType,
  qbo_payment, ContactRow, TransactionRow, SyncLinkRow, Database, gets,
}
use invoicing_platform.Accounts.{get_contact}
use invoicing_platform.Payments.{is_voided}
use invoicing_platform.Sync.Links.{find_link_by_local, state_code, qbo_code}
use invoicing_platform.Sync.Links.Failures.{
  mark_failed, find_failed_links_due, delete_never_synced_failed_link,
}
use invoicing_platform.Inbound.Body.{JsRuntime}
use invoicing_platform.Outbound.Builders.{JsOutput}
use invoicing_platform.Outbound.Effects.{QboClient, Eff, done, run, try_catch, ◌>>=◌, ◌>>◌}
use invoicing_platform.Outbound.Push.{
  RefType, contact_ref, account_ref, item_ref, ensure_entity_synced,
}
use invoicing_platform.Outbound.Removal.{
  OutboundStatus, push_skipped, OutboundResult, OutboundParams,
}
use invoicing_platform.Outbound.Documents.{sync_invoice_outbound}
use invoicing_platform.Outbound.PaymentPush.{sync_payment_outbound}
use invoicing_platform.Sweep.Reconcile.{
  Reconciled, now_linked, not_there, several_there, reconcile_document_create,
  reconcile_contact_create,
}

pub data RetryOutcome : Type 0 where
  succeeded failed_again exhausted cleared : RetryOutcome

pub record RetrySweepSummary : Type 0 where
  pub retried : ℕ
  pub succeeded : ℕ
  pub failed : ℕ
  pub terminal : ℕ
  pub cleared : ℕ

abbrev pub find_row : RowId → RowId → Database → Option TransactionRow
find_row org id db = first (λ t. t.org_id == org && t.id == id) db.transactions

abbrev pub is_gone : TransactionRow → Bool
is_gone t = if is_some t.deleted_at then true else is_voided t.status

module _ (js : JsRuntime) (out : JsOutput) (q : QboClient) where
  abbrev give_up : SyncLinkRow → SyncEntityType → String → Eff q Unit
  give_up link entity message =
      run (mark_failed link.org_id entity link.local_id link.qbo_type message) >> done tt

  abbrev sync_by_type : QboEntityType → OutboundParams → Eff q OutboundResult
  sync_by_type type params =
      if qbo_code type == qbo_code qbo_payment
      then sync_payment_outbound js out q params
      else sync_invoice_outbound js out q params

  abbrev is_push_skipped : OutboundStatus → Bool
  is_push_skipped push_skipped = true
  is_push_skipped _ = false

  -- A record that is gone and was never in QBO leaves the queue.
  abbrev clear_skipped : SyncLinkRow → TransactionRow → OutboundResult → Eff q Unit
  clear_skipped link txn result =
      if not (is_some link.qbo_id) && is_gone txn && is_push_skipped result.status
      then run (delete_never_synced_failed_link link.org_id transaction txn.id)
      else done tt

  abbrev push_again : SyncLinkRow → TransactionRow → Eff q Unit
  push_again link txn = do
    result ←
        sync_by_type link.qbo_type
          (record { org_id = link.org_id; txn_id = txn.id; user_id = none; force = false })
    clear_skipped link txn result

  abbrev after_reconcile : SyncLinkRow → TransactionRow → Reconciled → Eff q Unit
  after_reconcile link txn now_linked = done tt
  after_reconcile link txn several_there =
      give_up link transaction
        "ambiguous natural-key match during create-retry reconcile — resolve manually"
  after_reconcile link txn not_there = push_again link txn

  abbrev retry_found : SyncLinkRow → Option TransactionRow → Eff q Unit
  retry_found link none = give_up link transaction "retry: local transaction no longer exists"
  retry_found link (some txn) =
      if not (is_some link.qbo_id) && not (is_gone txn)
      then (reconcile_document_create js q link txn >>= after_reconcile link txn)
      else push_again link txn

  unfoldable pub retry_transaction_link : SyncLinkRow → Eff q Unit
  retry_transaction_link link = do
    txn ← run (gets (find_row link.org_id link.local_id))
    retry_found link txn

  -- The error of a push that fails again is recorded by the push.
  abbrev ensure_again : SyncLinkRow → RefType → Eff q Unit
  ensure_again link type =
      try_catch (ensure_entity_synced js out q link.org_id type link.local_id >> done tt)
        (λ e. done tt)

  abbrev after_contact_reconcile : SyncLinkRow → Reconciled → Eff q Unit
  after_contact_reconcile link now_linked = done tt
  after_contact_reconcile link several_there =
      give_up link contact
        "ambiguous natural-key match during create-retry reconcile — resolve manually"
  after_contact_reconcile link not_there = ensure_again link contact_ref

  abbrev retry_new_contact : SyncLinkRow → Option ContactRow → Eff q Unit
  retry_new_contact link none = give_up link contact "retry: local contact no longer exists"
  retry_new_contact link (some c) =
      reconcile_contact_create js q link c >>= after_contact_reconcile link

  unfoldable pub retry_contact_link : SyncLinkRow → Eff q Unit
  retry_contact_link link =
      if is_some link.qbo_id
      then ensure_again link contact_ref
      else (run (gets (get_contact link.org_id link.local_id)) >>= retry_new_contact link)

  -- `retryTransactionLink` or `retryRefLink`.
  abbrev pub retry_link : SyncEntityType → SyncLinkRow → Eff q Unit
  retry_link transaction link = retry_transaction_link link
  retry_link contact link = retry_contact_link link
  retry_link account link = ensure_again link account_ref
  retry_link item link = ensure_again link item_ref

  abbrev failure_outcome : Bool → Option ℕ → RetryOutcome
  failure_outcome true none = exhausted
  failure_outcome true (some at) = failed_again
  failure_outcome false at = failed_again

  abbrev pub outcome_of : Option SyncLinkRow → RetryOutcome
  outcome_of none = cleared
  outcome_of (some l) =
      if state_code l.state == state_code synced
      then succeeded
      else failure_outcome (state_code l.state == state_code failed) l.next_retry_at

  -- What is thrown is swallowed: the link says what came of it.
  unfoldable pub retry_one_failed_link : SyncLinkRow → Eff q RetryOutcome
  retry_one_failed_link link = do
    try_catch (retry_link link.entity_type link) (λ e. done tt)
    updated ← run (gets (find_link_by_local link.org_id link.entity_type link.local_id))
    done (outcome_of updated)

  abbrev pub count : RetryOutcome → RetrySweepSummary → RetrySweepSummary
  count succeeded s = record s { retried = s.retried + 1; succeeded = s.succeeded + 1 }
  count failed_again s = record s { retried = s.retried + 1; failed = s.failed + 1 }
  count exhausted s = record s { retried = s.retried + 1; terminal = s.terminal + 1 }
  count cleared s = record s { retried = s.retried + 1; cleared = s.cleared + 1 }

  unfoldable pub retry_links : List SyncLinkRow → RetrySweepSummary → Eff q RetrySweepSummary
  retry_links [] s = done s
  retry_links (l ∷ ls) s = do outcome ← retry_one_failed_link l; retry_links ls (count outcome s)

  abbrev pub has_org : RowId → List RowId → Bool
  has_org org [] = false
  has_org org (o ∷ os) = if o == org then true else has_org org os

  -- The keys of `byOrg`, in the order in which they were first met: `seen` are the ones before.
  abbrev pub orgs_of : List RowId → List SyncLinkRow → List RowId
  orgs_of seen [] = []
  orgs_of seen (l ∷ ls) =
      let without = orgs_of seen ls in
      let rest = orgs_of (l.org_id ∷ seen) ls in
      if has_org l.org_id seen then without else l.org_id ∷ rest

  -- `connected` says whether `resolveOutboundDeps` finds a connection of the organisation; an error of the
  -- database on the way is not modelled.
  unfoldable pub retry_orgs :
      (RowId → Bool) → List SyncLinkRow → List RowId → RetrySweepSummary → Eff q RetrySweepSummary
  retry_orgs connected due [] s = done s
  retry_orgs connected due (org ∷ orgs) s = do
    s' ← (if connected org then retry_links (select (λ l. l.org_id == org) due) s else done s)
    retry_orgs connected due orgs s'

  unfoldable pub run_outbound_retry_sweep : (RowId → Bool) → ℕ → Eff q RetrySweepSummary
  run_outbound_retry_sweep connected now = do
    due ← run (gets (find_failed_links_due now))
    retry_orgs connected due (orgs_of [] due)
        (record { retried = 0; succeeded = 0; failed = 0; terminal = 0; cleared = 0 })

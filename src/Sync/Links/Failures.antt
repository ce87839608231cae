-- ===== src/Sync/Links/Failures.antt =====
-- The failed links of sync-link-service.ts: `markFailed`, the retry queue, and what leaves it.
use invoicing_platform.Prelude.{
  ℕ, ◌+◌, String, Bool, false, ◌&&◌, not, Option, none, some, List, leb, ◌==◌, if◌then◌else◌,
  is_some, select, remove,
}
use invoicing_platform.Database.{
  RowId, SyncEntityType, conflict, failed, QboEntityType, SyncLinkRow, Database, Tx, pure, gets,
  modify, ◌>>=◌,
}
use invoicing_platform.Sync.Retry.{Backoff, delay_of, compute_backoff}
use invoicing_platform.Sync.Links.{
  is_local_key, state_code, find_link_by_local, update_links, insert_link,
}

-- `backoffMs === null ? null : new Date(Date.now() + backoffMs)`
abbrev pub retry_at : ℕ → Backoff → Option ℕ
retry_at now b = elim (delay_of b) [ none ↦ none | some ms ↦ some (now + ms) ]

unfoldable pub failed_link : ℕ → ℕ → String → SyncLinkRow → SyncLinkRow
failed_link now retry_count message l = record l {
  state = failed;
  retry_count = retry_count;
  next_retry_at = retry_at now (compute_backoff retry_count);
  last_error = some message;
  updated_at = now;
}

unfoldable pub first_failure :
    RowId → SyncEntityType → RowId → QboEntityType → String → Database → SyncLinkRow
first_failure org entity local type message db = record {
  id = db.next_id;
  org_id = org;
  entity_type = entity;
  local_id = local;
  qbo_type = type;
  qbo_id = none;
  state = failed;
  local_version = none;
  qbo_sync_token = none;
  last_synced_at = none;
  conflict_detected_at = none;
  retry_count = 1;
  next_retry_at = retry_at db.now (compute_backoff 1);
  last_error = some message;
  updated_at = db.now;
}

abbrev is_conflict : SyncLinkRow → Bool
is_conflict l = state_code l.state == state_code conflict

abbrev pub mark_failed_found :
    RowId
    → SyncEntityType
    → RowId
    → QboEntityType
    → String
    → Option SyncLinkRow
    → Tx (Option SyncLinkRow)
mark_failed_found org entity local type message (some existing) =
    if is_conflict existing then pure (some existing) else (do
      now ← gets (λ db. db.now)
      update_links (λ l. l.id == existing.id) (failed_link now (existing.retry_count + 1) message))
mark_failed_found org entity local type message none = do
  row ← gets (first_failure org entity local type message)
  inserted ← insert_link row
  pure (some inserted)

unfoldable pub mark_failed :
    RowId → SyncEntityType → RowId → QboEntityType → String → Tx (Option SyncLinkRow)
mark_failed org entity local type message = do
  existing ← gets (find_link_by_local org entity local)
  mark_failed_found org entity local type message existing

abbrev is_due : ℕ → Option ℕ → Bool
is_due now none = false
is_due now (some at) = leb at now

unfoldable pub find_failed_links_due : ℕ → Database → List SyncLinkRow
find_failed_links_due now db =
    select (λ l. state_code l.state == state_code failed && is_due now l.next_retry_at)
      db.sync_links

unfoldable pub find_failed_links_for_org : RowId → Database → List SyncLinkRow
find_failed_links_for_org org db =
    select (λ l. l.org_id == org && state_code l.state == state_code failed) db.sync_links

unfoldable pub delete_never_synced_failed_link : RowId → SyncEntityType → RowId → Tx Unit
delete_never_synced_failed_link org entity local = modify (λ db. record db {
  sync_links =
      remove
        (λ l.
          is_local_key org entity local l
          && (state_code l.state == state_code failed && not (is_some l.qbo_id)))
        db.sync_links;
})

-- ===== src/Sync/Links.antt =====
-- apps/api/src/qbo/sync-link-service.ts: the rows that tie a local record to its QBO counterpart.
-- The proofs are in the modules below.
pub mod Keys
pub mod Valid
pub mod Upsert
pub mod Written
pub mod Marks
pub mod Failures
pub mod Retrying
use mathlib.Core.Option
use invoicing_platform.Prelude.{
  ℕ, suc, ◌+◌, String, Bool, true, false, ◌&&◌, not, Option, none, some, List, [], ◌∷◌, ◌++◌, leb,
  ◌==◌, if◌then◌else◌, is_some, or_default, first, select, remove, update,
}
use invoicing_platform.Database.{
  RowId, TransactionType, customer_invoice, payment, SyncEntityType, contact, account, item,
  transaction, SyncState, pending, synced, conflict, failed, QboEntityType, qbo_customer,
  qbo_account, qbo_item, qbo_invoice, qbo_payment, SyncLinkRow, Database, Error, Result, ok, err,
  conflicting_link, unmappable_entity, failed_write, Tx, pure, gets, modify, raise, raise_if,
  some_or_raise, ◌>>=◌, ◌>>◌,
}
use invoicing_platform.Sync.Retry.{Backoff, delay_of, compute_backoff}

-- `resolveQboType`
unfoldable resolve_qbo_type : SyncEntityType → Option TransactionType → Result QboEntityType
resolve_qbo_type contact _ = ok qbo_customer
resolve_qbo_type account _ = ok qbo_account
resolve_qbo_type item _ = ok qbo_item
resolve_qbo_type transaction none = err unmappable_entity
resolve_qbo_type transaction (some customer_invoice) = ok qbo_invoice
resolve_qbo_type transaction (some payment) = ok qbo_payment
resolve_qbo_type transaction (some _) = err unmappable_entity

abbrev pub entity_code : SyncEntityType → ℕ
entity_code contact = 0
entity_code account = 1
entity_code item = 2
entity_code transaction = 3

abbrev pub qbo_code : QboEntityType → ℕ
qbo_code qbo_customer = 0
qbo_code qbo_account = 1
qbo_code qbo_item = 2
qbo_code qbo_invoice = 3
qbo_code qbo_payment = 4

abbrev pub state_code : SyncState → ℕ
state_code pending = 0
state_code synced = 1
state_code conflict = 2
state_code failed = 3

-- `eq(column, value)` of a nullable column: a null fits nothing.
abbrev pub eq_nullable : Option ℕ → ℕ → Bool
eq_nullable none k = false
eq_nullable (some j) k = j == k

abbrev pub is_local_key : RowId → SyncEntityType → RowId → SyncLinkRow → Bool
is_local_key org entity local l =
    l.org_id == org && (entity_code l.entity_type == entity_code entity && l.local_id == local)

abbrev pub is_qbo_key : RowId → QboEntityType → RowId → SyncLinkRow → Bool
is_qbo_key org type qbo l =
    l.org_id == org && (qbo_code l.qbo_type == qbo_code type && eq_nullable l.qbo_id qbo)

unfoldable pub find_link_by_local : RowId → SyncEntityType → RowId → Database → Option SyncLinkRow
find_link_by_local org entity local db = first (is_local_key org entity local) db.sync_links

unfoldable pub find_link_by_qbo : RowId → QboEntityType → RowId → Database → Option SyncLinkRow
find_link_by_qbo org type qbo db = first (is_qbo_key org type qbo) db.sync_links

unfoldable find_link_by_id : RowId → RowId → Database → Option SyncLinkRow
find_link_by_id org link db = first (λ l. l.org_id == org && l.id == link) db.sync_links

-- An optional column of an input: `none` is `undefined`, which leaves the column alone.
pub record UpsertLinkInput : Type 0 where
  pub org_id : RowId
  pub entity_type : SyncEntityType
  pub local_id : RowId
  pub qbo_type : QboEntityType
  pub qbo_id : RowId
  pub state : Option SyncState
  pub local_version : Option (Option ℕ)
  pub qbo_sync_token : Option (Option (List ℕ))
  pub last_synced_at : Option (Option ℕ)
  pub conflict_detected_at : Option (Option ℕ)
  pub retry_count : Option ℕ
  pub next_retry_at : Option (Option ℕ)
  pub last_error : Option (Option String)

-- The guards on a local record that is linked already.
unfoldable pub check_counterpart : UpsertLinkInput → SyncLinkRow → Option RowId → Tx Unit
check_counterpart input by_local (some qbo) =
    raise_if (not (qbo_code by_local.qbo_type == qbo_code input.qbo_type && qbo == input.qbo_id))
      conflicting_link
check_counterpart input by_local none = do
  by_qbo ← gets (find_link_by_qbo input.org_id input.qbo_type input.qbo_id)
  raise_if (elim by_qbo [ none ↦ false | some l ↦ not (l.id == by_local.id) ]) conflicting_link

unfoldable pub updated_link : UpsertLinkInput → ℕ → SyncLinkRow → SyncLinkRow
updated_link input now l = record l {
  qbo_id = some input.qbo_id;
  state = or_default input.state l.state;
  local_version = or_default input.local_version l.local_version;
  qbo_sync_token = or_default input.qbo_sync_token l.qbo_sync_token;
  last_synced_at = or_default input.last_synced_at l.last_synced_at;
  conflict_detected_at = or_default input.conflict_detected_at l.conflict_detected_at;
  retry_count = or_default input.retry_count l.retry_count;
  next_retry_at = or_default input.next_retry_at l.next_retry_at;
  last_error = or_default input.last_error l.last_error;
  updated_at = now;
}

pub inserted_link : UpsertLinkInput → Database → SyncLinkRow
inserted_link input db = record {
  id = db.next_id;
  org_id = input.org_id;
  entity_type = input.entity_type;
  local_id = input.local_id;
  qbo_type = input.qbo_type;
  qbo_id = some input.qbo_id;
  state = or_default input.state pending;
  local_version = or_default input.local_version none;
  qbo_sync_token = or_default input.qbo_sync_token none;
  last_synced_at = or_default input.last_synced_at none;
  conflict_detected_at = or_default input.conflict_detected_at none;
  retry_count = or_default input.retry_count 0;
  next_retry_at = or_default input.next_retry_at none;
  last_error = or_default input.last_error none;
  updated_at = db.now;
}

-- `update(syncLinks).set(f).where(p).returning()`: the rows after it, and the first changed one.
abbrev pub update_links :
    (SyncLinkRow → Bool) → (SyncLinkRow → SyncLinkRow) → Tx (Option SyncLinkRow)
update_links p f db =
    ok (Option.map f (first p db.sync_links), record db { sync_links = update p f db.sync_links })

abbrev pub insert_link : SyncLinkRow → Tx SyncLinkRow
insert_link l db =
    ok (l, record db { sync_links = db.sync_links ++ (l ∷ []); next_id = suc db.next_id })

abbrev pub upsert_found : UpsertLinkInput → Option SyncLinkRow → Tx SyncLinkRow
upsert_found input none = do
  by_qbo ← gets (find_link_by_qbo input.org_id input.qbo_type input.qbo_id)
  raise_if (is_some by_qbo) conflicting_link
  row ← gets (inserted_link input)
  insert_link row
upsert_found input (some by_local) = do
  check_counterpart input by_local by_local.qbo_id
  now ← gets (λ db. db.now)
  row ← update_links (λ l. l.id == by_local.id) (updated_link input now)
  some_or_raise row failed_write

unfoldable pub upsert_link : UpsertLinkInput → Tx SyncLinkRow
unfolding check_counterpart
upsert_link input = do
  by_local ← gets (find_link_by_local input.org_id input.entity_type input.local_id)
  upsert_found input by_local

abbrev pub bumped_link : ℕ → SyncLinkRow → SyncLinkRow
bumped_link now l = record l {
  local_version = Option.map (λ v. v + 1) l.local_version;
  updated_at = now;
}

-- `where(…, isNotNull(localVersion))`
abbrev pub is_versioned_key : RowId → SyncEntityType → RowId → SyncLinkRow → Bool
is_versioned_key org entity local l = is_local_key org entity local l && is_some l.local_version

unfoldable pub bump_local_version : RowId → SyncEntityType → RowId → Tx (Option SyncLinkRow)
bump_local_version org entity local = do
  now ← gets (λ db. db.now)
  update_links (is_versioned_key org entity local) (bumped_link now)

unfoldable pub set_link_state : RowId → SyncEntityType → RowId → SyncState → Tx (Option SyncLinkRow)
set_link_state org entity local state = do
  now ← gets (λ db. db.now)
  update_links (is_local_key org entity local) (λ l. record l { state = state; updated_at = now })

pub record MarkSyncedInput : Type 0 where
  pub qbo_sync_token : Option (List ℕ)
  pub local_version : Option ℕ
  pub last_synced_at : Option ℕ

-- A field that is `undefined` leaves its column alone.
abbrev pub set_some {ℓ} : {A : Type ℓ} → Option A → Option A → Option A
set_some none old = old
set_some (some v) old = some v

unfoldable pub synced_link : MarkSyncedInput → ℕ → SyncLinkRow → SyncLinkRow
synced_link input now l = record l {
  state = synced;
  last_synced_at = some (or_default input.last_synced_at now);
  conflict_detected_at = none;
  retry_count = 0;
  next_retry_at = none;
  last_error = none;
  updated_at = now;
  qbo_sync_token = set_some input.qbo_sync_token l.qbo_sync_token;
  local_version = set_some input.local_version l.local_version;
}

unfoldable pub mark_synced :
    RowId → SyncEntityType → RowId → MarkSyncedInput → Tx (Option SyncLinkRow)
unfolding synced_link
mark_synced org entity local input = do
  now ← gets (λ db. db.now)
  update_links (is_local_key org entity local) (synced_link input now)

unfoldable pub mark_conflict : RowId → SyncEntityType → RowId → Tx (Option SyncLinkRow)
mark_conflict org entity local = do
  now ← gets (λ db. db.now)
  update_links (is_local_key org entity local)
      (λ l. record l { state = conflict; conflict_detected_at = some now; updated_at = now })

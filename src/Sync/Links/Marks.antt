-- ===== src/Sync/Links/Marks.antt =====
-- The state changes of a link: what each leaves behind, and that the table's constraints hold.
use mathlib.Core.Option
use mathlib.Core.Path.{subst}
use invoicing_platform.Prelude.{
  ℕ, ◌+◌, ◌≡◌, refl, inl, inr, Bool, true, false, Option, none, some, arith, Option-cases,
  if◌then◌else◌, update, first-update,
}
use invoicing_platform.Database.{RowId, SyncEntityType, SyncLinkRow, Database, ok, ok-injective}
use invoicing_platform.Sync.Conflict.{is_both_sides_conflict}
use invoicing_platform.Sync.Links.{
  is_local_key, find_link_by_local, bump_local_version, bumped_link, is_versioned_key,
  MarkSyncedInput, synced_link, mark_synced, mark_conflict,
}
use invoicing_platform.Sync.Links.Keys.{HasValidLinks, find_link_by_local-fits}
use invoicing_platform.Sync.Links.Valid.{KeepsKeys, update-IsValidLinks}

-- The conflict test of a link against a version of its local record.
abbrev pub link_conflict : Option SyncLinkRow → ℕ → Bool → Bool
link_conflict none version stale = false
link_conflict (some l) version stale =
    is_both_sides_conflict
      (record { stored_local_version = l.local_version; txn_version = version }) stale

module _ (org : RowId) (entity : SyncEntityType) (local : RowId) (db : Database) where
  abbrev pub after_bump : Database
  after_bump = record db {
    sync_links = update (is_versioned_key org entity local) (bumped_link db.now) db.sync_links;
  }

  find-after_bump :
      find_link_by_local org entity local after_bump
      ≡ Option.map
          (λ l. if is_versioned_key org entity local l then bumped_link db.now l else l)
          (find_link_by_local org entity local db)
  unfolding find_link_by_local
  find-after_bump =
      first-update (is_local_key org entity local) (is_versioned_key org entity local)
        (bumped_link db.now) db.sync_links (λ l. refl)

  bumped-conflict :
      (version : ℕ) (stale : Bool) (l : SyncLinkRow)
      → is_local_key org entity local l ≡ true
      → link_conflict
          (some (if is_versioned_key org entity local l then bumped_link db.now l else l))
          (version + 1)
          stale
        ≡ link_conflict (some l) version stale
  unfolding is_both_sides_conflict
  bumped-conflict version true l h = refl
  bumped-conflict version false l h = elim (Option-cases l.local_version) [
    | inl e ↦ rw (h, e)
    | inr (v, e) ↦ rw (h, e) (ground arith)
  ]

  -- A bump by one beside a version bump by one leaves the conflict test of the link as it was, dirty
  -- or clean, for any version of the record and any staleness of what comes in.
  pub bump_local_version-conflict :
      (version : ℕ) (stale : Bool)
      → (l : Option SyncLinkRow) × (bump_local_version org entity local db ≡ ok (l, after_bump))
        × (link_conflict (find_link_by_local org entity local after_bump) (version + 1) stale
            ≡ link_conflict (find_link_by_local org entity local db) version stale)
  unfolding bump_local_version
  bump_local_version-conflict version stale = (
    _,
    refl,
    elim (Option-cases (find_link_by_local org entity local db)) [
      | inl e ↦ rw (find-after_bump, e)
      | inr (l, e) ↦
          rw (find-after_bump, e)
            (bumped-conflict version stale l (find_link_by_local-fits org entity local db e))
    ],
  )

bump_keeps : (now : ℕ) → KeepsKeys (bumped_link now)
bump_keeps now = record {
  local_key = record {
    id = λ l. refl;
    org_id = λ l. refl;
    entity_type = λ l. refl;
    local_id = λ l. refl;
  };
  qbo_type = λ l. refl;
  qbo_id = λ l. refl;
}

synced_keeps : (input : MarkSyncedInput) (now : ℕ) → KeepsKeys (synced_link input now)
unfolding synced_link
synced_keeps input now = record {
  local_key = record {
    id = λ l. refl;
    org_id = λ l. refl;
    entity_type = λ l. refl;
    local_id = λ l. refl;
  };
  qbo_type = λ l. refl;
  qbo_id = λ l. refl;
}

-- Each of the state changes leaves the keys of every link alone, so the constraints hold after it.
module _ (org : RowId) (entity : SyncEntityType) (local : RowId) (db out : Database) where
  pub bump_local_version-HasValidLinks :
      {l : Option SyncLinkRow}
      → bump_local_version org entity local db ≡ ok (l, out)
      → HasValidLinks db
      → HasValidLinks out
  unfolding bump_local_version
  bump_local_version-HasValidLinks h v = subst HasValidLinks (ok-injective h) (
      update-IsValidLinks (is_versioned_key org entity local) db.sync_links db.next_id
        (bump_keeps db.now) v)

  pub mark_synced-HasValidLinks :
      (input : MarkSyncedInput) {l : Option SyncLinkRow}
      → mark_synced org entity local input db ≡ ok (l, out)
      → HasValidLinks db
      → HasValidLinks out
  unfolding mark_synced
  mark_synced-HasValidLinks input h v = subst HasValidLinks (ok-injective h) (
      update-IsValidLinks (is_local_key org entity local) db.sync_links db.next_id
        (synced_keeps input db.now) v)

  pub mark_conflict-HasValidLinks :
      {l : Option SyncLinkRow}
      → mark_conflict org entity local db ≡ ok (l, out)
      → HasValidLinks db
      → HasValidLinks out
  unfolding mark_conflict
  mark_conflict-HasValidLinks h v = subst HasValidLinks (ok-injective h) (
      update-IsValidLinks (is_local_key org entity local) db.sync_links db.next_id
        (record {
          local_key = record {
            id = λ l. refl;
            org_id = λ l. refl;
            entity_type = λ l. refl;
            local_id = λ l. refl;
          };
          qbo_type = λ l. refl;
          qbo_id = λ l. refl;
        })
        v)

-- ===== src/Sync/Links/Written.antt =====
-- After `upsertLink` goes through, the link of the local record is the one that was written.
use mathlib.Core.Option
use mathlib.Core.Path.{subst}
use invoicing_platform.Prelude.{
  ℕ, ◌≡◌, refl, ◌∙◌, Option, none, some, true, ◌==◌, ◌&&◌, arith, first, update, first-update,
  first-append_one, Option-cases, inl, inr, is_some,
}
use invoicing_platform.Database.{
  SyncLinkRow, Database, ok, failed_write, bind-eq-ok, ok-inj, raise_if-eq-ok, some_or_raise-same,
}
use invoicing_platform.Sync.Links.{
  UpsertLinkInput, is_local_key, find_link_by_local, find_link_by_qbo, check_counterpart,
  entity_code, updated_link, inserted_link, upsert_found, upsert_link,
}
use invoicing_platform.Sync.Links.Upsert.{check_counterpart-same}

-- The link of the local record has the QBO id of the input, and the version.
abbrev pub IsWritten : UpsertLinkInput → Option ℕ → Database → Type 0
IsWritten input version out =
    (l : SyncLinkRow) × (find_link_by_local input.org_id input.entity_type input.local_id out
      ≡ some l)
    × (l.qbo_id ≡ some input.qbo_id)
    × (l.local_version ≡ version)

own_key :
    (input : UpsertLinkInput)
    → (input.org_id == input.org_id
        && (entity_code input.entity_type == entity_code input.entity_type
            && input.local_id == input.local_id))
      ≡ true
own_key input = ground arith

own_id : (l : SyncLinkRow) → (l.id == l.id) ≡ true
own_id l = ground arith

inserted-IsWritten :
    (input : UpsertLinkInput) (version : Option ℕ) (db : Database) {x : SyncLinkRow × Database}
    → input.local_version ≡ some version
    → find_link_by_local input.org_id input.entity_type input.local_id db ≡ none
    → upsert_found input none db ≡ ok x
    → IsWritten input version x.1
unfolding inserted_link find_link_by_local find_link_by_qbo
inserted-IsWritten input version db {x} has unfound h =
    let (free, e) =
      raise_if-eq-ok (is_some (find_link_by_qbo input.org_id input.qbo_type input.qbo_id db)) _ _ db
        h in
    subst (λ (y : SyncLinkRow × Database). IsWritten input version y.1) (ok-inj e)
      (
        inserted_link input db,
        first-append_one (is_local_key input.org_id input.entity_type input.local_id) db.sync_links
            (inserted_link input db) unfound (own_key input),
        refl,
        (rw has refl),
      )

updated-IsWritten :
    (input : UpsertLinkInput) (version : Option ℕ) (db : Database) (l : SyncLinkRow)
    {x : SyncLinkRow × Database}
    → input.local_version ≡ some version
    → find_link_by_local input.org_id input.entity_type input.local_id db ≡ some l
    → upsert_found input (some l) db ≡ ok x
    → IsWritten input version x.1
unfolding updated_link find_link_by_local
updated-IsWritten input version db l {x} has found h =
    let (u, mid, checked, e) = bind-eq-ok (check_counterpart input l l.qbo_id) _ db h in
    let done =
      some_or_raise-same
        (Option.map (updated_link input mid.now) (first (λ m. m.id == l.id) mid.sync_links))
        failed_write
        (record mid {
          sync_links = update (λ m. m.id == l.id) (updated_link input mid.now) mid.sync_links;
        })
        e in
    let same = check_counterpart-same input l l.qbo_id db checked in
    subst (IsWritten input version) done (
      updated_link input mid.now l,
      first-update (is_local_key input.org_id input.entity_type input.local_id) (λ m. m.id == l.id)
            (updated_link input mid.now) mid.sync_links (λ m. refl)
          ∙ rw (← same, found, own_id l) refl,
      refl,
      rw has refl,
    )

pub upsert_link-IsWritten :
    (input : UpsertLinkInput) (version : Option ℕ) (db out : Database) (row : SyncLinkRow)
    → input.local_version ≡ some version
    → upsert_link input db ≡ ok (row, out)
    → IsWritten input version out
unfolding upsert_link
upsert_link-IsWritten input version db out row has h =
    elim (Option-cases (find_link_by_local input.org_id input.entity_type input.local_id db)) [
      | inl unfound ↦ inserted-IsWritten input version db has unfound (rw unfound at h)
      | inr (l, found) ↦ updated-IsWritten input version db l has found (rw found at h)
    ]

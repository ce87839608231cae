-- ===== src/Sync/Links/Retrying.antt =====
-- `markFailed`: what a failure leaves on a link.
use invoicing_platform.Prelude.{
  ℕ, suc, ◌+◌, ◌≡◌, ◌≢◌, refl, ◌∙◌, inl, inr, String, true, false, ◌&&◌, Option, none, some, [],
  ◌∷◌, ◌++◌, arith, ◌==◌, ==_iff, Bool-cases, Option-cases, update, first-update, first-append_one,
}
use invoicing_platform.Database.{
  RowId, SyncEntityType, conflict, failed, QboEntityType, SyncLinkRow, Database, ok,
}
use invoicing_platform.Sync.Retry.{compute_backoff}
use invoicing_platform.Sync.Links.{is_local_key, entity_code, state_code, find_link_by_local}
use invoicing_platform.Sync.Links.Failures.{retry_at, failed_link, first_failure, mark_failed}
use invoicing_platform.Sync.Links.Keys.{HasValidLinks, found-by_id}

abbrev pub failures_of : Option SyncLinkRow → ℕ
failures_of none = 0
failures_of (some l) = l.retry_count

-- The bookkeeping of a link after its `n`-th failure at a time.
pub record IsFailed (n now : ℕ) (message : String) (l : SyncLinkRow) : Type 0 where
  pub state : l.state ≡ failed
  pub retry_count : l.retry_count ≡ n
  pub next_retry_at : l.next_retry_at ≡ retry_at now (compute_backoff n)
  pub last_error : l.last_error ≡ some message

not_conflict : (l : SyncLinkRow) → l.state ≢ conflict → (state_code l.state == 2) ≡ false
not_conflict l h = elim (Bool-cases (state_code l.state == 2)) [
  | inl e ↦ absurd (h (ground arith))
  | inr e ↦ e
]

module _ (org : RowId) (entity : SyncEntityType) (local : RowId) (type : QboEntityType)
    (message : String) (db : Database) where
  abbrev FailsOnce : ℕ → Type 0
  FailsOnce n =
      (l : SyncLinkRow) × (out : Database) × (mark_failed org entity local type message db
        ≡ ok (some l, out))
      × (find_link_by_local org entity local out ≡ some l)
      × IsFailed n db.now message l

  first-FailsOnce : find_link_by_local org entity local db ≡ none → FailsOnce 1
  unfolding mark_failed find_link_by_local first_failure
  first-FailsOnce unfound = (
    first_failure org entity local type message db,
    record db {
      sync_links = db.sync_links ++ (first_failure org entity local type message db ∷ []);
      next_id = suc db.next_id;
    },
    rw unfound,
    first-append_one (is_local_key org entity local) db.sync_links _ unfound
        (rw ((==_iff org org).1 refl, (==_iff local local).1 refl) (own_entity entity)),
    record { state = refl; retry_count = refl; next_retry_at = refl; last_error = refl },
  )
    where
      own_entity : (e : SyncEntityType) → (entity_code e == entity_code e && true) ≡ true
      own_entity e = rw (==_iff (entity_code e) (entity_code e)).1 refl

  again-FailsOnce :
      (l : SyncLinkRow)
      → HasValidLinks db
      → find_link_by_local org entity local db ≡ some l
      → l.state ≢ conflict
      → FailsOnce (l.retry_count + 1)
  unfolding mark_failed find_link_by_local failed_link
  again-FailsOnce l v found no_conflict =
      let f = failed_link db.now (l.retry_count + 1) message in
      let by_id = found-by_id (is_local_key org entity local) db.sync_links l found v.id_unique in
      (
        f l,
        record db { sync_links = update (λ x. x.id == l.id) f db.sync_links },
        rw (found, not_conflict l no_conflict, by_id),
        first-update (is_local_key org entity local) (λ x. x.id == l.id) f db.sync_links (λ x. refl)
            ∙ rw (found, (==_iff l.id l.id).1 refl),
        record { state = refl; retry_count = refl; next_retry_at = refl; last_error = refl },
      )

  -- Any other failure goes through and leaves a link for the record, found under its key, with one
  -- failure more than before and the time of the next attempt that the backoff gives.
  pub mark_failed-IsFailed :
      HasValidLinks db
      → ((l : SyncLinkRow) → find_link_by_local org entity local db ≡ some l → l.state ≢ conflict)
      → FailsOnce (failures_of (find_link_by_local org entity local db) + 1)
  mark_failed-IsFailed v no_conflict =
      elim (Option-cases (find_link_by_local org entity local db)) [
        | inl unfound ↦ rw unfound (first-FailsOnce unfound)
        | inr (l, found) ↦ rw found (again-FailsOnce l v found (no_conflict l found))
      ]

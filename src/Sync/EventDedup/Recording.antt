-- ===== src/Sync/EventDedup/Recording.antt =====
-- Recording an event: the first delivery wins, a redelivery changes nothing.
use invoicing_platform.Prelude.{
  ◌≡◌, ◌↔◌, refl, inl, inr, Bool, true, false, none, [], ◌∷◌, ◌++◌, ==_iff, first, first-append_one,
  Option-cases,
}
use invoicing_platform.Money.SameText.{same_text_iff}
use invoicing_platform.Database.{RowId, ProcessedEventRow, Database, ok}
use invoicing_platform.Sync.EventDedup.{
  WebhookEventIdentity, is_event, build_event_key, record_event_if_new,
}

-- A delivery goes through and says whether its key was not yet in the table of its organisation; a
-- second delivery of the same event then says no, and leaves the database as the first left it.
pub record_event_if_new-twice :
    (org : RowId) (e : WebhookEventIdentity) (db : Database)
    → (is_new : Bool) × (out : Database) × (record_event_if_new org e db ≡ ok (is_new, out))
      × ((is_new ≡ true) ↔ (first (is_event org (build_event_key e)) db.processed_events ≡ none))
      × (record_event_if_new org e out ≡ ok (false, out))
unfolding record_event_if_new
record_event_if_new-twice org e db =
    elim (Option-cases (first (is_event org (build_event_key e)) db.processed_events)) [
      | inl unfound ↦
          let row : ProcessedEventRow = record { org_id = org; event_key = build_event_key e } in
          let fits : is_event org (build_event_key e) row ≡ true = rw (
            (==_iff org org).1 refl,
            (same_text_iff (build_event_key e) (build_event_key e)).1 refl,
          ) in
          (
            true,
            record db { processed_events = db.processed_events ++ (row ∷ []) },
            rw unfound,
            rw unfound (λ _. refl, λ _. refl),
            rw (
                first-append_one (is_event org (build_event_key e)) db.processed_events row unfound
                  fits),
          )
      | inr (row, found) ↦ (false, db, rw found, rw found ((λ h. cc), (λ h. cc)), rw found)
    ]

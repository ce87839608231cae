-- ===== src/Tests/Syncing.antt =====
-- Sync links, retries, ordering and event keys on the small shop.
use invoicing_platform.Prelude.{
  ℕ, ◌+◌, ◌*◌, ◌≡◌, ◌≢◌, ◌≤◌, ◌<◌, ◌⊎◌, refl, Bool, ◌↔◌, true, false, Option, none, some, List, [],
  ◌∷◌, arith, first,
}
use Prim.Native.Nat.{min}
use invoicing_platform.Prelude.Int.{ℤ, pos}
use invoicing_platform.Money.{Text}
use invoicing_platform.Database.{transaction, qbo_invoice, conflict, SyncLinkRow, Database, ok}
use invoicing_platform.Sync.Retry.{
  delay, terminal, max_retry_attempts, base_delay_ms, max_delay_ms, compute_backoff,
  compute_backoff-schedule,
}
use invoicing_platform.Sync.Links.{
  find_link_by_local, bump_local_version, UpsertLinkInput, find_link_by_qbo, inserted_link,
  upsert_link,
}
use invoicing_platform.Sync.Links.Keys.{HasValidLinks}
use invoicing_platform.Sync.Links.Upsert.{upsert_link-HasValidLinks}
use invoicing_platform.Sync.Links.Marks.{link_conflict, after_bump, bump_local_version-conflict}
use invoicing_platform.Sync.Links.Failures.{mark_failed}
use invoicing_platform.Sync.Links.Retrying.{IsFailed, mark_failed-IsFailed}
use invoicing_platform.Sync.EventDedup.{
  WebhookEventIdentity, is_event, build_event_key, record_event_if_new,
}
use invoicing_platform.Sync.EventDedup.Injective.{IsPlain, time_of, build_event_key-injective}
use invoicing_platform.Sync.EventDedup.Recording.{record_event_if_new-twice}
use invoicing_platform.Money.{text, to_cents, format_cents}
use invoicing_platform.Money.RoundTrip.{to_cents-format_cents}
use invoicing_platform.Sync.NaturalKey.{
  matched, to_match_result, LocalInvoiceLike, QboInvoiceLike, match_invoice_by_natural_key,
}
use invoicing_platform.Sync.NaturalKey.Confident.{IsConfident, match_invoice-IsConfident}
use invoicing_platform.Tests.{link, shop}

bump_local_version-conflict_example :
    (l : Option SyncLinkRow) × (bump_local_version 1 transaction 100 shop
      ≡ ok (l, after_bump 1 transaction 100 shop))
    × (link_conflict
          (find_link_by_local 1 transaction 100 (after_bump 1 transaction 100 shop))
          1
          false
        ≡ link_conflict (find_link_by_local 1 transaction 100 shop) 0 false)
bump_local_version-conflict_example = bump_local_version-conflict 1 transaction 100 shop 0 false

shop-HasValidLinks : HasValidLinks shop
shop-HasValidLinks = record {
  local_unique = (tt, tt);
  qbo_unique = (tt, tt);
  id_unique = (tt, tt);
  id_below = (omega arith, tt);
}

-- A local record 102 that gets the QBO id 78.
abbrev new_link : UpsertLinkInput
new_link = record {
  org_id = 1;
  entity_type = transaction;
  local_id = 102;
  qbo_type = qbo_invoice;
  qbo_id = 78;
  state = none;
  local_version = none;
  qbo_sync_token = none;
  last_synced_at = none;
  conflict_detected_at = none;
  retry_count = none;
  next_retry_at = none;
  last_error = none;
}

abbrev linked_shop : Database
linked_shop = record shop { sync_links = link ∷ inserted_link new_link shop ∷ []; next_id = 401 }

not_found_before : find_link_by_local 1 transaction 102 shop ≡ none
unfolding find_link_by_local
not_found_before = refl

linked : upsert_link new_link shop ≡ ok (inserted_link new_link shop, linked_shop)
unfolding upsert_link find_link_by_local find_link_by_qbo
linked = refl

upsert_link-HasValidLinks_example : HasValidLinks linked_shop
upsert_link-HasValidLinks_example =
    upsert_link-HasValidLinks new_link shop (inserted_link new_link shop) linked_shop
      shop-HasValidLinks (λ l f. absurd (cc (not_found_before, f))) linked

found_before : find_link_by_local 1 transaction 100 shop ≡ some link
unfolding find_link_by_local
found_before = refl

not_disputed :
    (l : SyncLinkRow) → find_link_by_local 1 transaction 100 shop ≡ some l → l.state ≢ conflict
not_disputed l f h = cc (found_before, f, h)

mark_failed-IsFailed_example :
    (l : SyncLinkRow) × (out : Database) × (mark_failed 1 transaction 100 qbo_invoice "timeout" shop
      ≡ ok (some l, out))
    × (find_link_by_local 1 transaction 100 out ≡ some l)
    × IsFailed 1 2000 "timeout" l
unfolding find_link_by_local
mark_failed-IsFailed_example =
    mark_failed-IsFailed 1 transaction 100 qbo_invoice "timeout" shop shop-HasValidLinks
      not_disputed

compute_backoff-schedule_example :
    (3 < max_retry_attempts)
      × ((ms : ℕ) × (compute_backoff 3 ≡ delay ms)
          × (base_delay_ms ≤ ms)
          × (ms ≤ max_delay_ms)
          × (3 + 1 < max_retry_attempts
              → compute_backoff (3 + 1) ≡ delay (min (2 * ms) max_delay_ms)))
    ⊎ (max_retry_attempts ≤ 3) × (compute_backoff 3 ≡ terminal)
compute_backoff-schedule_example = compute_backoff-schedule 3 (omega arith)

abbrev update_of : Text → WebhookEventIdentity
update_of id = record {
  realm_id = b'9' ∷ [];
  name = b'I' ∷ [];
  id = id;
  operation = b'U' ∷ [];
  last_updated = none;
}

update-IsPlain : IsPlain (update_of (b'7' ∷ []))
update-IsPlain = record {
  realm_id = ((λ h. omega arith), tt);
  name = ((λ h. omega arith), tt);
  id = ((λ h. omega arith), tt);
  operation = ((λ h. omega arith), tt);
}

build_event_key-injective_example :
    ((update_of (b'7' ∷ [])).realm_id ≡ (update_of (b'7' ∷ [])).realm_id)
    × ((update_of (b'7' ∷ [])).name ≡ (update_of (b'7' ∷ [])).name)
    × ((update_of (b'7' ∷ [])).id ≡ (update_of (b'7' ∷ [])).id)
    × ((update_of (b'7' ∷ [])).operation ≡ (update_of (b'7' ∷ [])).operation)
    × (time_of none ≡ time_of none)
build_event_key-injective_example =
    build_event_key-injective (update_of (b'7' ∷ [])) (update_of (b'7' ∷ [])) update-IsPlain
      update-IsPlain refl

record_event_if_new-twice_example :
    (is_new : Bool) × (out : Database) × (record_event_if_new 1 (update_of (b'7' ∷ [])) shop
      ≡ ok (is_new, out))
    × ((is_new ≡ true) ↔ (
        first (is_event 1 (build_event_key (update_of (b'7' ∷ [])))) shop.processed_events ≡ none))
    × (record_event_if_new 1 (update_of (b'7' ∷ [])) out ≡ ok (false, out))
record_event_if_new-twice_example = record_event_if_new-twice 1 (update_of (b'7' ∷ [])) shop

-- An invoice of 100.00 without a number, and two candidates for customer 9.
abbrev unnumbered : LocalInvoiceLike
unnumbered = record {
  doc_number = none;
  total = text (format_cents (pos 10000));
  txn_date = b'1' ∷ [];
  customer_qbo_id = some 9;
}

abbrev candidate : ℕ → ℤ → QboInvoiceLike
candidate id cents = record {
  qbo_id = id;
  doc_number = none;
  total = text (format_cents cents);
  txn_date = b'1' ∷ [];
  customer_qbo_id = some 9;
}

abbrev candidates : List QboInvoiceLike
candidates = candidate 41 (pos 9900) ∷ candidate 42 (pos 10000) ∷ []

matched_42 : match_invoice_by_natural_key unnumbered candidates ≡ some (matched 42)
unfolding match_invoice_by_natural_key to_match_result
matched_42 = rw (
  to_cents-format_cents (pos 10000),
  to_cents-format_cents (pos 9900),
  to_cents-format_cents (pos 10000),
)

match_invoice-IsConfident_example :
    (cents : ℤ) × (to_cents unnumbered.total ≡ some cents)
    × IsConfident unnumbered candidates cents 42
match_invoice-IsConfident_example = match_invoice-IsConfident unnumbered candidates 42 matched_42

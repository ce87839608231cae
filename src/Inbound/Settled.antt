-- ===== src/Inbound/Settled.antt =====
-- What an applied change leaves behind on the link: a redelivery of it is stale.
use Prim.Native.String.{String}
use invoicing_platform.Prelude.{
  ℕ, ◌+◌, ◌≡◌, inl, inr, Option-cases, refl, ◌∙◌, Bool, true, false, ltb, if◌then◌else◌, none, some,
  first-update, arith,
}
use invoicing_platform.Prelude.Int.{ℤ, leb_ℤ, ◌≤ℤ◌}
use invoicing_platform.Database.{transaction, synced, SyncLinkRow, TransactionRow, Database, ok}
use invoicing_platform.Database.Statements.{write_audit_log}
use invoicing_platform.Sync.Ordering.{parse_sync_token, is_stale_inbound_apply}
use invoicing_platform.Sync.Conflict.{is_both_sides_conflict}
use invoicing_platform.Sync.Links.{is_local_key, synced_link, find_link_by_local, mark_synced}
use invoicing_platform.Sync.Links.Keys.{find_link_by_local-fits}
use invoicing_platform.Inbound.Body.{Json, JsRuntime}
use invoicing_platform.Inbound.Mappers.{qbo_sync_token}
use invoicing_platform.Inbound.Guards.{
  ApplyInboundEntityInput, InboundAction, is_link_stale, has_conflict, audit, finish,
}

empty_token : (js : JsRuntime) (token : ℤ) → parse_sync_token js.parsers none ≡ some token → ⊥
unfolding parse_sync_token
empty_token js token h = cc

leb_ℤ_of : (a b : ℤ) → a ≤ℤ b → leb_ℤ a b ≡ true
leb_ℤ_of a b h = ground arith

≤ℤ-refl : (a : ℤ) → a ≤ℤ a
≤ℤ-refl a = omega arith

module _ (js : JsRuntime) (qbo : Json) (link : SyncLinkRow) (now version : ℕ) where
  abbrev pub settled_link : SyncLinkRow
  settled_link =
      synced_link
        (record {
          qbo_sync_token = qbo_sync_token qbo;
          local_version = some (version + 1);
          last_synced_at = some now;
        })
        now link

-- What is no newer by its sync token is stale against a settled link.
pub outdated-stale :
    (js : JsRuntime) (qbo qbo' : Json) (link : SyncLinkRow) (now version : ℕ) (token token' : ℤ)
    → parse_sync_token js.parsers (qbo_sync_token qbo) ≡ some token
    → parse_sync_token js.parsers (qbo_sync_token qbo') ≡ some token'
    → token' ≤ℤ token
    → is_link_stale js (settled_link js qbo link now version) qbo' ≡ true
unfolding is_link_stale is_stale_inbound_apply synced_link
outdated-stale js qbo qbo' link now version token token' h k le =
    elim (Option-cases (qbo_sync_token qbo)) [
      | inl e ↦ absurd (empty_token js token (rw e at h))
      | inr (s, e) ↦ elim (Option-cases (qbo_sync_token qbo')) [
        | inl e' ↦ absurd (empty_token js token' (rw e' at k))
        | inr (s', e') ↦
            let p = rw e at h in let p' = rw e' at k in rw (e, e', p, p') (leb_ℤ_of token' token le)
      ]
    ]

clean_at : (stale : Bool) (n : ℕ) → (if stale then false else ltb n n) ≡ false
clean_at stale n = ground arith

clean_after :
    (js : JsRuntime) (qbo : Json) (link : SyncLinkRow) (t : TransactionRow) (now : ℕ) (newer : Json)
    → has_conflict js
        (settled_link js qbo link now t.version)
        (record t { version = t.version + 1 })
        newer
      ≡ false
unfolding synced_link is_both_sides_conflict
clean_after js qbo link t now newer =
    clean_at (is_link_stale js (settled_link js qbo link now t.version) newer) (t.version + 1)

synced_key :
    (org id : ℕ) (qbo : Json) (now version : ℕ) (l : SyncLinkRow)
    → is_local_key org transaction id (
        synced_link
          (record {
            qbo_sync_token = qbo_sync_token qbo;
            local_version = some (version + 1);
            last_synced_at = some now;
          })
          now
          l)
      ≡ is_local_key org transaction id l
unfolding synced_link
synced_key org id qbo now version l = refl

synced_state :
    (js : JsRuntime) (qbo : Json) (link : SyncLinkRow) (now version : ℕ)
    → (settled_link js qbo link now version).state ≡ synced
unfolding synced_link
synced_state js qbo link now version = refl

-- An applied change settles the record's link: it is synced at the record's new version and holds no
-- conflict against it, and where the body has a sync token that is a number the same body is stale.
pub finish-settles :
    (js : JsRuntime) (input : ApplyInboundEntityInput) (t : TransactionRow) (qbo : Json)
    (action : String) (result : InboundAction) (link : SyncLinkRow) (token : ℤ) (db : Database)
    → find_link_by_local input.org_id transaction t.id db ≡ some link
    → parse_sync_token js.parsers (qbo_sync_token qbo) ≡ some token
    → (out : Database) × ((finish js input t qbo action result db
          ≡ ok (record { action = result; local_id = some t.id; reason = none }, out))
        × ((settled : SyncLinkRow) × ((find_link_by_local input.org_id transaction t.id out
                ≡ some settled)
              × ((settled.state ≡ synced)
                  × ((is_link_stale js settled qbo ≡ true)
                      × ((newer : Json)
                          → has_conflict js settled (record t { version = t.version + 1 }) newer
                            ≡ false))))))
unfolding finish audit write_audit_log mark_synced find_link_by_local
finish-settles js input t qbo action result link token db found h = (
  _,
  (
    refl,
    (
      settled_link js qbo link db.now t.version,
      (
        first-update (is_local_key input.org_id transaction t.id)
              (is_local_key input.org_id transaction t.id)
              (synced_link
                (record {
                  qbo_sync_token = qbo_sync_token qbo;
                  local_version = some (t.version + 1);
                  last_synced_at = some db.now;
                })
                db.now)
              db.sync_links (synced_key input.org_id t.id qbo db.now t.version)
            ∙ rw (found, find_link_by_local-fits input.org_id transaction t.id db found) refl,
        (
          synced_state js qbo link db.now t.version,
          (
            outdated-stale js qbo qbo link db.now t.version token token h h (≤ℤ-refl token),
            λ newer. clean_after js qbo link t db.now newer,
          ),
        ),
      ),
    ),
  ),
)

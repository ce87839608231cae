-- ===== src/Webhook/Once.antt =====
-- A webhook event is applied once: a redelivery adds an audit row, and what throws claims nothing.
use invoicing_platform.Prelude.{
  ◌≡◌, ◌⊎◌, inl, inr, refl, sym, ap, ◌∙◌, Bool, true, false, Option, Option-cases, none, some, List,
  [], ◌∷◌, first,
}
use mathlib.Core.Path.{subst}
use invoicing_platform.Database.{
  Result-cases, RowId, QboEntityType, skipped, failure, Database, Result, ok, err, Error, transact,
  bind-eq-ok, ok-inj,
}
use invoicing_platform.Database.Statements.{write_audit_log}
use invoicing_platform.Database.Keeps.{Keeps, Keeps-bind, Keeps-pure, transact-Keeps}
use invoicing_platform.Ledger.Balance.{IsBalanced}
use invoicing_platform.Ledger.Statements.{statement_rules}
use invoicing_platform.Sync.EventDedup.{is_event, build_event_key, record_event_if_new}
use invoicing_platform.Sync.EventDedup.Recording.{record_event_if_new-twice}
use invoicing_platform.Inbound.Body.{Json, JsRuntime}
use invoicing_platform.Inbound.Apply.{apply_inbound_entity}
use invoicing_platform.Inbound.Books.{apply_inbound_entity-Keeps}
use invoicing_platform.Inbound.Inert.{logged}
use invoicing_platform.Webhook.{
  Delivery, identity, webhook_row, map_notification_to_entity_type, apply_input, apply_if_new,
  claim_and_apply, handle_typed, handle_entity, Outcome, go_on, handle_all,
}

unclaimed : {a b : Database} → ◌≡◌ {A = Result (Bool × Database)} (ok (true, a)) (ok (false, b)) → ⊥
unclaimed h = cc

-- A later claim reads the table of the processed events only.
claim-same :
    (org : RowId) (d : Delivery) (db out : Database)
    → record_event_if_new org (identity d) db ≡ ok (false, db)
    → db.processed_events ≡ out.processed_events
    → record_event_if_new org (identity d) out ≡ ok (false, out)
unfolding record_event_if_new
claim-same org d db out h e =
    elim (Option-cases (first (is_event org (build_event_key (identity d))) db.processed_events)) [
      | inl unfound ↦ absurd (unclaimed (rw unfound at h))
      | inr (row, found) ↦ rw (← e, found) refl
    ]

module _ (js : JsRuntime) where
  apply_if_new-Keeps :
      (d : Delivery) (type : QboEntityType) (body : Json) (is_new : Bool)
      → Keeps IsBalanced (apply_if_new js d type body is_new)
  apply_if_new-Keeps d type body false = search statement_rules
  apply_if_new-Keeps d type body true =
      Keeps-bind (apply_inbound_entity js (apply_input js d type body)) _
        (apply_inbound_entity-Keeps js (apply_input js d type body)) (λ r. Keeps-pure tt)

  -- What a claim and an apply leave behind: the event is claimed.
  claimed-after :
      (d : Delivery) (type : QboEntityType) (body : Json) (db out : Database)
      → claim_and_apply js d type body db ≡ ok (tt, out)
      → record_event_if_new d.org_id (identity d) out ≡ ok (false, out)
  unfolding claim_and_apply
  claimed-after d type body db out h =
      let (is_new, mid, claimed, applied) =
        bind-eq-ok (record_event_if_new d.org_id (identity d)) (apply_if_new js d type body) db h in
      let (was_new, mid', first_claim, iff, again) =
        record_event_if_new-twice d.org_id (identity d) db in
      let same : mid' ≡ mid =
        ap (λ (y : Bool × Database). y.1) (ok-inj (sym first_claim ∙ claimed)) in
      claim-same d.org_id d mid out
        (subst (λ x. record_event_if_new d.org_id (identity d) x ≡ ok (false, x)) same again)
        ((apply_if_new-Keeps d type body is_new).events mid tt out applied)

  duplicate :
      (d : Delivery) (type : QboEntityType) (body : Json) (db : Database)
      → record_event_if_new d.org_id (identity d) db ≡ ok (false, db)
      → transact (claim_and_apply js d type body) db
        ≡ (ok tt, logged (webhook_row d "qbo.webhook.duplicate" skipped) db)
  unfolding claim_and_apply transact write_audit_log
  duplicate d type body db h = rw h refl

record_event-IsBalanced :
    (org : RowId) (d : Delivery) (db mid : Database) (is_new : Bool)
    → record_event_if_new org (identity d) db ≡ ok (is_new, mid)
    → IsBalanced db
    → IsBalanced mid
unfolding record_event_if_new
record_event-IsBalanced org d db mid is_new h p =
    elim (Option-cases (first (is_event org (build_event_key (identity d))) db.processed_events)) [
      | inl unfound ↦
          subst IsBalanced (ap (λ (y : Bool × Database). y.1) (ok-inj (rw unfound at h))) p
      | inr (row, found) ↦
          subst IsBalanced (ap (λ (y : Bool × Database). y.1) (ok-inj (rw found at h))) p
    ]

claim_and_apply-IsBalanced :
    (js : JsRuntime) (d : Delivery) (type : QboEntityType) (body : Json) (db : Database)
    → IsBalanced db
    → IsBalanced (transact (claim_and_apply js d type body) db).1
unfolding claim_and_apply transact
claim_and_apply-IsBalanced js d type body db p =
    elim (Result-cases (claim_and_apply js d type body db)) [
      | inl (e, h) ↦ rw h p
      | inr (u, out, h) ↦
          let (is_new, mid, claimed, applied) =
            bind-eq-ok (record_event_if_new d.org_id (identity d)) (apply_if_new js d type body) db
              h in
          rw h (
            (apply_if_new-Keeps js d type body is_new).at mid u out applied
              (record_event-IsBalanced d.org_id d db mid is_new claimed p))
    ]

-- A delivery that was refetched either throws and leaves the database as it was, the claim of the event
-- included, or goes through, and then a redelivery of the event, whatever body it brings, adds the audit
-- row of a duplicate and nothing else.
pub handle_entity-once :
    (js : JsRuntime) (d : Delivery) (type : QboEntityType) (body body' : Json) (db : Database)
    → map_notification_to_entity_type d.entity.name ≡ some type
    → ((e : Error) × (handle_entity js (record d { refetched = some body }) db ≡ (err e, db)))
      ⊎ ((out : Database) × (handle_entity js (record d { refetched = some body }) db
            ≡ (ok tt, out))
          × (handle_entity js (record d { refetched = some body' }) out
              ≡ (ok tt, logged (webhook_row d "qbo.webhook.duplicate" skipped) out)))
unfolding handle_entity transact
handle_entity-once js d type body body' db mapped =
    elim (Result-cases (claim_and_apply js (record d { refetched = some body }) type body db)) [
      | inl (e, h) ↦ inl (e, rw (mapped, h) refl)
      | inr (u, out, h) ↦ inr (
        out,
        rw (mapped, h) refl,
        rw mapped (
            duplicate js (record d { refetched = some body' }) type body' out
              (claimed-after js (record d { refetched = some body }) type body db out h)),
      )
    ]

handle_typed-IsBalanced :
    (js : JsRuntime) (d : Delivery) (o : Option QboEntityType) (b : Option Json) (db : Database)
    → IsBalanced db
    → IsBalanced (handle_typed js (record d { refetched = b }) o db).1
handle_typed-IsBalanced js d none b db h =
    transact-Keeps IsBalanced (write_audit_log (webhook_row d "qbo.webhook.unmapped" skipped)) db
      (search statement_rules) h
handle_typed-IsBalanced js d (some type) none db h =
    transact-Keeps IsBalanced (write_audit_log (webhook_row d "qbo.webhook.refetch_failed" failure))
      db (search statement_rules) h
handle_typed-IsBalanced js d (some type) (some b) db h =
    claim_and_apply-IsBalanced js (record d { refetched = some b }) type b db h

go_on-IsBalanced :
    (r : Outcome) (rest : Database → Outcome)
    → IsBalanced r.1
    → ((db : Database) → IsBalanced db → IsBalanced (rest db).1)
    → IsBalanced (go_on r rest).1
go_on-IsBalanced (ok u, db) rest h k = k db h
go_on-IsBalanced (err e, db) rest h k = h

-- Every call of the webhook, for any entities in any order, applied, skipped or thrown at any point,
-- keeps debits equal to credits in every transaction.
pub handle_all-IsBalanced :
    (js : JsRuntime) (ds : List Delivery) (db : Database)
    → IsBalanced db
    → IsBalanced (handle_all js ds db).1
unfolding handle_all handle_entity
handle_all-IsBalanced js [] db h = h
handle_all-IsBalanced js (d ∷ ds) db h =
    go_on-IsBalanced (handle_entity js d db) (handle_all js ds)
      (handle_typed-IsBalanced js d (map_notification_to_entity_type d.entity.name) d.refetched db
        h)
      (λ db' h'. handle_all-IsBalanced js ds db' h')

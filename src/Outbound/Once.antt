-- ===== src/Outbound/Once.antt =====
-- A push that goes through is not repeated: the next one finds the link current.
use mathlib.Core.Path.{subst}
use invoicing_platform.Prelude.{
  ℕ, ◌≡◌, ◌⊎◌, inl, inr, refl, sym, Bool, true, false, not, ◌&&◌, if◌then◌else◌, leb, Bool-cases,
  Option, none, some, arith,
}
use invoicing_platform.Database.{
  Result-cases, RowId, transaction, success, qbo_invoice, qbo_payment, QboEntityType,
  TransactionRow, SyncLinkRow, AuditLogRow, Database, Error, Result, ok, err,
}
use invoicing_platform.Database.Statements.{write_audit_log}
use invoicing_platform.Sync.Links.{UpsertLinkInput, find_link_by_local, upsert_link}
use invoicing_platform.Sync.Links.Written.{upsert_link-IsWritten}
use invoicing_platform.Inbound.Body.{Json, JsRuntime}
use invoicing_platform.Inbound.Inert.{logged}
use invoicing_platform.Outbound.Builders.{JsOutput}
use invoicing_platform.Outbound.Effects.{QboClient, World, Eff}
use invoicing_platform.Outbound.Push.{PushResult, push_entity, is_outbound_redundant, outbound_row}
use invoicing_platform.Outbound.Removal.{pushed, push_skipped, OutboundResult, OutboundParams}
use invoicing_platform.Outbound.Documents.{pushed_link, push_document, push_unless_current}
use invoicing_platform.Outbound.PaymentPush.{pushed_payment_link}
use invoicing_platform.Outbound.Guarding.{
  DocumentType, invoice_document, payment_document, skipped_world, current-skips,
}

pub Effect-cases :
    {A W : Type 0} (x : Result A × W)
    → ((e : Error) × (w : W) × (x ≡ (err e, w))) ⊎ ((a : A) × (w : W) × (x ≡ (ok a, w)))
Effect-cases (err e, w) = inl (e, w, refl)
Effect-cases (ok a, w) = inr (a, w, refl)

guard-passes :
    {q : QboClient} {A : Type 0} (force redundant : Bool) (m n : Eff q A) (w : World q)
    → redundant ≡ false
    → (if not force && redundant then m else n) w ≡ n w
guard-passes true b m n w h = refl
guard-passes false true m n w h = absurd (cc)
guard-passes false false m n w h = refl

module _ (js : JsRuntime) (out : JsOutput) (q : QboClient) where
  -- The link that a push of the document writes.
  abbrev pub link_for :
      DocumentType → OutboundParams → TransactionRow → PushResult → ℕ → UpsertLinkInput
  link_for invoice_document params txn = pushed_link js out q params txn qbo_invoice
  link_for payment_document params txn = pushed_payment_link js out q params txn

  abbrev pub qbo_type_for : DocumentType → QboEntityType
  qbo_type_for invoice_document = qbo_invoice
  qbo_type_for payment_document = qbo_payment

  abbrev pub push : DocumentType → OutboundParams → TransactionRow → Json → Eff q OutboundResult
  push type params txn =
      push_unless_current js out q params txn (qbo_type_for type) (link_for type params txn)

  -- The link shows that the document is pushed at its version.
  IsCurrent : OutboundParams → TransactionRow → Database → Type 0
  IsCurrent params txn db =
      is_outbound_redundant (find_link_by_local params.org_id transaction txn.id db) txn.version
      ≡ true

  leb_refl : (n : ℕ) → leb n n ≡ true
  leb_refl n = ground arith

  written-IsCurrent :
      (type : DocumentType) (params : OutboundParams) (txn : TransactionRow) (result : PushResult)
      (now : ℕ) (db after : Database) (row : SyncLinkRow)
      → upsert_link (link_for type params txn result now) db ≡ ok (row, after)
      → IsCurrent params txn after
  unfolding IsCurrent is_outbound_redundant
  written-IsCurrent invoice_document params txn result now db after row h =
      let (l, found, id, version) =
        upsert_link-IsWritten (link_for invoice_document params txn result now) (some txn.version)
          db after row refl h in
      rw (found, id, version) (leb_refl txn.version)
  written-IsCurrent payment_document params txn result now db after row h =
      let (l, found, id, version) =
        upsert_link-IsWritten (link_for payment_document params txn result now) (some txn.version)
          db after row refl h in
      rw (found, id, version) (leb_refl txn.version)

  same_links :
      (params : OutboundParams) (txn : TransactionRow) (db : Database) (row : AuditLogRow)
      → IsCurrent params txn db
      → IsCurrent params txn (logged row db)
  unfolding IsCurrent find_link_by_local
  same_links params txn db row h = h

  -- What a push leaves: an error, or a world in which the document is current.
  IsPushed : OutboundParams → TransactionRow → Result OutboundResult × World q → Type 0
  IsPushed params txn x =
      ((e : Error) × (w : World q) × (x ≡ (err e, w)))
      ⊎ ((r : OutboundResult) × (w : World q) × (x ≡ (ok r, w)) × IsCurrent params txn w.db)

  push_document-IsPushed :
      (type : DocumentType) (params : OutboundParams) (txn : TransactionRow) (body : Json)
      (existing : Option SyncLinkRow) (w : World q)
      → IsPushed params txn (
          push_document js out q params txn
            (qbo_type_for type)
            (link_for type params txn)
            body
            existing
            w)
  unfolding IsPushed write_audit_log
  push_document-IsPushed type params txn body existing w =
      elim (Effect-cases (push_entity js out q (qbo_type_for type) existing body w)) [
        | inl (e, w', h) ↦ inl (e, w', rw h refl)
        | inr (result, w', h) ↦
            elim (Result-cases (upsert_link (link_for type params txn result w'.db.now) w'.db)) [
              | inl (e, k) ↦ inl (e, w', rw (h, k) refl)
              | inr (row, after, k) ↦ inr (
                record { status = pushed; qbo_id = some result.qbo_id; reason = none },
                record w' {
                  db =
                      logged
                        (outbound_row params.org_id params.user_id transaction txn.id
                          "outbound_sync" success)
                        after;
                },
                rw (h, k) refl,
                same_links params txn after _
                    (written-IsCurrent type params txn result w'.db.now w'.db after row k),
              )
            ]
      ]

  push-IsPushed :
      (type : DocumentType) (params : OutboundParams) (txn : TransactionRow) (body : Json)
      (w : World q)
      → params.force ≡ false
      → IsPushed params txn (push type params txn body w)
  unfolding IsPushed IsCurrent push_unless_current
  push-IsPushed type params txn body w f =
      elim (Bool-cases (
        is_outbound_redundant (find_link_by_local params.org_id transaction txn.id w.db)
          txn.version)) [
            | inl c ↦
                let (id, e) =
                  current-skips js out q params txn (qbo_type_for type) (link_for type params txn)
                    body w f c in
                inr (_, skipped_world js out q params txn.id w, e, same_links params txn w.db _ c)
            | inr c ↦
                subst (IsPushed params txn)
                  (sym (
                    guard-passes params.force
                      (is_outbound_redundant
                        (find_link_by_local params.org_id transaction txn.id w.db) txn.version)
                      _ _ w c))
                  (push_document-IsPushed type params txn body
                    (find_link_by_local params.org_id transaction txn.id w.db) w)
          ]

  -- The push of a document that is not forced throws, or goes through, and then a push of it at the same
  -- version, with whatever body, calls QBO in no way: it is skipped as current and adds an audit row. QBO
  -- may answer in any way.
  pub push-once :
      (type : DocumentType) (params : OutboundParams) (txn : TransactionRow) (body body' : Json)
      (w : World q)
      → params.force ≡ false
      → ((e : Error) × (w' : World q) × (push type params txn body w ≡ (err e, w')))
        ⊎ ((r : OutboundResult) × (w' : World q) × (push type params txn body w ≡ (ok r, w'))
            × ((id : Option RowId) × (push type params txn body' w' ≡ (
              ok (record { status = push_skipped; qbo_id = id; reason = some "already_current" }),
              skipped_world js out q params txn.id w',
            ))))
  unfolding IsPushed IsCurrent
  push-once type params txn body body' w f = elim (push-IsPushed type params txn body w f) [
    | inl thrown ↦ inl thrown
    | inr (r, w', e, c) ↦ inr (
      r,
      w',
      e,
      current-skips js out q params txn (qbo_type_for type) (link_for type params txn) body' w' f c,
    )
  ]

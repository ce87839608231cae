-- ===== src/Inbound/Conflicts.antt =====
-- A both-sides conflict is raised once and held until somebody resolves it.
use invoicing_platform.Prelude.{
  ℕ, ◌≡◌, ◌⊎◌, inl, inr, refl, ◌∙◌, true, false, is_some, Bool-cases, some, update, first-update,
}
use invoicing_platform.Database.{
  RowId, transaction, conflict, QboEntityType, SyncLinkRow, TransactionRow, AuditLogRow, Database,
  ok, Tx,
}
use invoicing_platform.Database.Statements.{write_audit_log}
use invoicing_platform.Payments.{is_voided}
use invoicing_platform.Sync.Links.{is_local_key, is_qbo_key, find_link_by_qbo, mark_conflict}
use invoicing_platform.Inbound.Body.{Json, JsRuntime}
use invoicing_platform.Inbound.Guards.{
  ApplyInboundEntityInput, in_conflict, InboundResult, Handlers, is_delete, is_void, is_link_stale,
  is_in_conflict, has_conflict, audit, leave, raise_conflict, handle_conflict_if_any, if_current,
  apply_operation,
}
use invoicing_platform.Inbound.Invoice.{find_local_invoice}
use invoicing_platform.Inbound.Payment.{find_local_payment}
use invoicing_platform.Inbound.Apply.{apply_inbound_entity}
use invoicing_platform.Inbound.Linked.{
  IsLinkedChange, IsLater, later-IsLinkedChange, handlers_of, apply_inbound_entity-linked,
}
use invoicing_platform.Inbound.Inert.{logged, IsInert, apply_row-runs, linked-IsInert}

abbrev pub conflict_link : ℕ → SyncLinkRow → SyncLinkRow
conflict_link now l = record l {
  state = conflict;
  conflict_detected_at = some now;
  updated_at = now;
}

-- The database in which the links of a local transaction are in conflict.
abbrev pub conflicted : RowId → RowId → Database → Database
conflicted org id db = record db {
  sync_links = update (is_local_key org transaction id) (conflict_link db.now) db.sync_links;
}

-- A change that no earlier guard stops and that meets a local change: the row is there, no conflict is
-- held, the change is news, it is no update of a void row, and the row moved on since the last sync.
pub record MeetsLocalChange (js : JsRuntime) (input : ApplyInboundEntityInput) (link : SyncLinkRow)
    (t : TransactionRow) (qbo : Json) : Type 0 where
  pub live : is_some t.deleted_at ≡ false
  pub no_bypass : input.bypass_conflict ≡ false
  pub not_held : is_in_conflict link ≡ false
  pub news : is_link_stale js link qbo ≡ false
  pub changes : (is_delete input.operation ≡ true) ⊎ (is_voided t.status ≡ false)
  pub dirty : has_conflict js link t qbo ≡ true

module _ (js : JsRuntime) (input : ApplyInboundEntityInput) (link : SyncLinkRow) (qbo : Json)
    (t : TransactionRow) (db : Database) (meets : MeetsLocalChange js input link t qbo) where
  -- Every operation comes to the same: the conflict is raised.
  RaisesConflict : Tx InboundResult → Type 0
  RaisesConflict m =
      (row : AuditLogRow) × (m db
        ≡ ok (
          record { action = in_conflict; local_id = some t.id; reason = some "both_sides_changed" },
          logged row (conflicted input.org_id t.id db),
        ))

  current-RaisesConflict :
      (rest : Tx InboundResult) → RaisesConflict (if_current js input link t qbo rest)
  unfolding RaisesConflict handle_conflict_if_any raise_conflict leave audit write_audit_log
      mark_conflict
  current-RaisesConflict rest = rw (meets.no_bypass, meets.dirty, meets.news) (_, refl)

  operation-RaisesConflict :
      (handlers : Handlers) → RaisesConflict (apply_operation js input link qbo handlers t)
  unfolding apply_operation
  operation-RaisesConflict handlers = elim (Bool-cases (is_delete input.operation)) [
    | inl d ↦ rw d (current-RaisesConflict (handlers.deleted t))
    | inr d ↦ elim meets.changes [
      | inl d' ↦ absurd (cc)
      | inr v ↦ elim (Bool-cases (is_void input.operation)) [
        | inl o ↦ rw (d, o, v) (current-RaisesConflict (handlers.voided t))
        | inr o ↦ rw (d, o, v) (current-RaisesConflict (handlers.patched t))
      ]
    ]
  ]

-- A change of a linked record that meets a local change raises a conflict: one audit row is added, the
-- record's link goes to conflict, and no other table changes.
pub change-conflicted :
    (js : JsRuntime) (input : ApplyInboundEntityInput) (link : SyncLinkRow) (qbo : Json)
    (t : TransactionRow) (db : Database)
    → IsLinkedChange input db link t qbo
    → MeetsLocalChange js input link t qbo
    → (row : AuditLogRow) × (apply_inbound_entity js input db
        ≡ ok (
          record { action = in_conflict; local_id = some t.id; reason = some "both_sides_changed" },
          logged row (conflicted input.org_id t.id db),
        ))
unfolding RaisesConflict
change-conflicted js input link qbo t db change meets =
    let handlers = handlers_of js input qbo input.entity_type in
    let (row, e) = operation-RaisesConflict js input link qbo t db meets handlers in
    (
      row,
      apply_inbound_entity-linked js input link qbo t db change
          ∙ apply_row-runs js input link qbo handlers t db meets.live (inr meets.not_held)
          ∙ e,
    )

module _ (org id : RowId) (link : SyncLinkRow) (db : Database) (row : AuditLogRow)
    (key : is_local_key org transaction id link ≡ true) where
  find-conflicted :
      (type : QboEntityType) (qbo_id : RowId)
      → find_link_by_qbo org type qbo_id db ≡ some link
      → find_link_by_qbo org type qbo_id (logged row (conflicted org id db))
        ≡ some (conflict_link db.now link)
  unfolding find_link_by_qbo
  find-conflicted type qbo_id e =
      first-update (is_qbo_key org type qbo_id) (is_local_key org transaction id)
        (conflict_link db.now) db.sync_links (λ l. refl)
      ∙ rw (e, key) refl

-- Once a change of a linked record raised a conflict, every later change of it that carries a body and no
-- bypass leaves everything but the audit log alone.
pub conflict-IsHeld :
    (js : JsRuntime) (input later : ApplyInboundEntityInput) (link : SyncLinkRow) (qbo qbo' : Json)
    (t : TransactionRow) (db : Database)
    → IsLinkedChange input db link t qbo
    → is_local_key input.org_id transaction t.id link ≡ true
    → MeetsLocalChange js input link t qbo
    → IsLater input later qbo'
    → later.bypass_conflict ≡ false
    → (r : InboundResult) × ((out : Database) × ((apply_inbound_entity js input db ≡ ok (r, out))
          × IsInert (apply_inbound_entity js later) out))
unfolding find_local_invoice find_local_payment
conflict-IsHeld js input later link qbo qbo' t db change key meets is_later no_bypass =
    let (row, e) = change-conflicted js input link qbo t db change meets in
    (
      _,
      (
        _,
        (
          e,
          linked-IsInert js later (conflict_link db.now link) qbo' t
              (logged row (conflicted input.org_id t.id db))
              (later-IsLinkedChange input later db (logged row (conflicted input.org_id t.id db))
                link (conflict_link db.now link) t t qbo qbo' is_later change
                (λ type e. find-conflicted input.org_id t.id link db row key type input.entity_id e)
                (λ i e. e) (λ i e. e))
              (inr (inr (no_bypass, inl refl))),
        ),
      ),
    )

-- ===== src/Inbound/Inert.antt =====
-- Inbound changes that leave everything but the audit log alone.
use Prim.Native.String.{String}
use invoicing_platform.Prelude.{
  ◌≡◌, ◌⊎◌, inl, inr, refl, ◌∙◌, true, false, is_some, Bool-cases, Option, some, [], ◌∷◌, ◌++◌,
}
use invoicing_platform.Database.{RowId, SyncLinkRow, TransactionRow, AuditLogRow, Database, ok, Tx}
use invoicing_platform.Database.Statements.{write_audit_log}
use invoicing_platform.Payments.{is_voided}
use invoicing_platform.Inbound.Body.{Json, JsRuntime}
use invoicing_platform.Inbound.Guards.{
  ApplyInboundEntityInput, skipped_apply, in_conflict, InboundResult, Handlers, is_delete, is_void,
  is_link_stale, is_in_conflict, audit, leave, skip, handle_already_conflict_hold, if_current,
  apply_operation, apply_row,
}
use invoicing_platform.Inbound.Apply.{apply_inbound_entity}
use invoicing_platform.Inbound.Linked.{IsLinkedChange, handlers_of, apply_inbound_entity-linked}

-- The database with one more audit row.
abbrev pub logged : AuditLogRow → Database → Database
logged row db = record db { sync_audit_logs = db.sync_audit_logs ++ (row ∷ []) }

-- The step goes through, says that it did not apply the change, and adds one audit row.
abbrev pub IsInert : Tx InboundResult → Database → Type 0
IsInert m db =
    (r : InboundResult) × ((row : AuditLogRow) × ((m db ≡ ok (r, logged row db))
        × ((r.action ≡ skipped_apply) ⊎ (r.action ≡ in_conflict))))

skip-IsInert :
    (input : ApplyInboundEntityInput) (id : Option RowId) (reason : String) (db : Database)
    → IsInert (skip input id reason) db
unfolding leave audit write_audit_log
skip-IsInert input id reason db = (_, (_, (refl, inl refl)))

-- What makes a linked change do nothing: the row is deleted, or void and not being deleted, or without a
-- bypass its link is in conflict or the change is stale.
abbrev pub HasNoEffect :
    JsRuntime → ApplyInboundEntityInput → SyncLinkRow → TransactionRow → Json → Type 0
HasNoEffect js input link existing qbo =
    (is_some existing.deleted_at ≡ true)
    ⊎ (((is_voided existing.status ≡ true) × (is_delete input.operation ≡ false))
        ⊎ ((input.bypass_conflict ≡ false)
            × ((is_in_conflict link ≡ true) ⊎ (is_link_stale js link qbo ≡ true))))

module _ (js : JsRuntime) (input : ApplyInboundEntityInput) (link : SyncLinkRow) (qbo : Json)
    (handlers : Handlers) (t : TransactionRow) (db : Database) where
  deleted-IsInert :
      is_some t.deleted_at ≡ true → IsInert (apply_row js input link qbo handlers t) db
  unfolding apply_row leave audit write_audit_log
  deleted-IsInert h = rw h (_, (_, (refl, inl refl)))

  -- A held conflict, whatever the operation.
  held-IsInert :
      is_some t.deleted_at ≡ false
      → input.bypass_conflict ≡ false
      → is_in_conflict link ≡ true
      → IsInert (apply_row js input link qbo handlers t) db
  unfolding apply_row handle_already_conflict_hold leave audit write_audit_log
  held-IsInert d b c = elim (Bool-cases (is_link_stale js link qbo)) [
    | inl s ↦ rw (d, b, c, s) (_, (_, (refl, inl refl)))
    | inr s ↦ rw (d, b, c, s) (_, (_, (refl, inr refl)))
  ]

  -- Without a held conflict the operation runs.
  pub apply_row-runs :
      is_some t.deleted_at ≡ false
      → (input.bypass_conflict ≡ true) ⊎ (is_in_conflict link ≡ false)
      → apply_row js input link qbo handlers t db ≡ apply_operation js input link qbo handlers t db
  unfolding apply_row handle_already_conflict_hold
  apply_row-runs d (inl b) = rw (d, b) refl
  apply_row-runs d (inr c) = elim (Bool-cases input.bypass_conflict) [
    | inl b ↦ rw (d, b) refl
    | inr b ↦ rw (d, b, c) refl
  ]

  void-IsInert :
      is_voided t.status ≡ true
      → is_delete input.operation ≡ false
      → IsInert (apply_operation js input link qbo handlers t) db
  unfolding apply_operation leave audit write_audit_log
  void-IsInert v n = elim (Bool-cases (is_void input.operation)) [
    | inl o ↦ rw (n, o, v) (_, (_, (refl, inl refl)))
    | inr o ↦ rw (n, o, v) (_, (_, (refl, inl refl)))
  ]

  stale-if_current :
      (rest : Tx InboundResult)
      → input.bypass_conflict ≡ false
      → is_link_stale js link qbo ≡ true
      → if_current js input link t qbo rest ≡ skip input (some t.id) "stale_ignored"
  stale-if_current rest b s = rw (b, s) refl

  stale-IsInert :
      input.bypass_conflict ≡ false
      → is_link_stale js link qbo ≡ true
      → IsInert (apply_operation js input link qbo handlers t) db
  unfolding apply_operation leave audit write_audit_log
  stale-IsInert b s = elim (Bool-cases (is_delete input.operation)) [
    | inl e ↦ rw (e, stale-if_current (handlers.deleted t) b s) (_, (_, (refl, inl refl)))
    | inr e ↦ elim (Bool-cases (is_voided t.status)) [
      | inl v ↦ void-IsInert v e
      | inr v ↦ elim (Bool-cases (is_void input.operation)) [
        | inl o ↦ rw (e, o, v, stale-if_current (handlers.voided t) b s) (_, (_, (refl, inl refl)))
        | inr o ↦ rw (e, o, v, stale-if_current (handlers.patched t) b s) (_, (_, (refl, inl refl)))
      ]
    ]
  ]

  operation-IsInert :
      is_some t.deleted_at ≡ false
      → (input.bypass_conflict ≡ true) ⊎ (is_in_conflict link ≡ false)
      → IsInert (apply_operation js input link qbo handlers t) db
      → IsInert (apply_row js input link qbo handlers t) db
  operation-IsInert d c (r, (row, (e, a))) = (r, (row, (apply_row-runs d c ∙ e, a)))

  -- Whether a conflict is held decides what is left to show.
  unheld-IsInert :
      is_some t.deleted_at ≡ false
      → IsInert (apply_operation js input link qbo handlers t) db
      → IsInert (apply_row js input link qbo handlers t) db
  unheld-IsInert d k = elim (Bool-cases input.bypass_conflict) [
    | inl b ↦ operation-IsInert d (inl b) k
    | inr b ↦ elim (Bool-cases (is_in_conflict link)) [
      | inl c ↦ held-IsInert d b c
      | inr c ↦ operation-IsInert d (inr c) k
    ]
  ]

  live-IsInert :
      is_some t.deleted_at ≡ false
      → HasNoEffect js input link t qbo
      → IsInert (apply_row js input link qbo handlers t) db
  live-IsInert d (inl e) = absurd (cc)
  live-IsInert d (inr (inl (v, n))) = unheld-IsInert d (void-IsInert v n)
  live-IsInert d (inr (inr (b, inl c))) = held-IsInert d b c
  live-IsInert d (inr (inr (b, inr s))) = unheld-IsInert d (stale-IsInert b s)

  pub apply_row-IsInert :
      HasNoEffect js input link t qbo → IsInert (apply_row js input link qbo handlers t) db
  apply_row-IsInert h = elim (Bool-cases (is_some t.deleted_at)) [
    | inl d ↦ deleted-IsInert d
    | inr d ↦ live-IsInert d h
  ]

-- A change of a linked record is skipped or held, with one audit row and no other write, when the local
-- record is deleted, or when it is void and the change is no delete, or when without a bypass the link is
-- in conflict or the change is stale.
pub linked-IsInert :
    (js : JsRuntime) (input : ApplyInboundEntityInput) (link : SyncLinkRow) (qbo : Json)
    (t : TransactionRow) (db : Database)
    → IsLinkedChange input db link t qbo
    → HasNoEffect js input link t qbo
    → IsInert (apply_inbound_entity js input) db
linked-IsInert js input link qbo t db change h =
    let (r, (row, (e, a))) =
      apply_row-IsInert js input link qbo (handlers_of js input qbo input.entity_type) t db h in
    (r, (row, (apply_inbound_entity-linked js input link qbo t db change ∙ e, a)))

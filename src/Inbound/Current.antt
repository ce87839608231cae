-- ===== src/Inbound/Current.antt =====
-- An inbound change of a linked record that no guard stops: its operation runs.
use invoicing_platform.Prelude.{◌≡◌, ◌⊎◌, inl, inr, refl, ◌∙◌, true, false, is_some, Bool-cases}
use invoicing_platform.Database.{SyncLinkRow, TransactionRow, Database, Tx}
use invoicing_platform.Payments.{is_voided}
use invoicing_platform.Inbound.Body.{Json, JsRuntime}
use invoicing_platform.Inbound.Guards.{
  Operation, create_op, update_op, delete_op, merge_op, void_op, emailed_op,
  ApplyInboundEntityInput, InboundResult, Handlers, is_delete, is_void, is_link_stale,
  is_in_conflict, has_conflict, handle_conflict_if_any, if_current, apply_operation,
}
use invoicing_platform.Inbound.Apply.{apply_inbound_entity}
use invoicing_platform.Inbound.Linked.{IsLinkedChange, handlers_of, apply_inbound_entity-linked}
use invoicing_platform.Inbound.Inert.{apply_row-runs}

-- No guard stops the change: the row is there, and there is a bypass, or no conflict is held, the change
-- is news and it meets no local change.
pub record IsCurrentChange (js : JsRuntime) (input : ApplyInboundEntityInput) (link : SyncLinkRow)
    (t : TransactionRow) (qbo : Json) : Type 0 where
  pub live : is_some t.deleted_at ≡ false
  pub free :
      (input.bypass_conflict ≡ true)
      ⊎ ((is_in_conflict link ≡ false)
          × (is_link_stale js link qbo ≡ false)
          × (has_conflict js link t qbo ≡ false))

void_no_delete : (o : Operation) → is_void o ≡ true → is_delete o ≡ false
void_no_delete void_op h = refl
void_no_delete create_op h = refl
void_no_delete update_op h = refl
void_no_delete delete_op h = absurd (cc)
void_no_delete merge_op h = refl
void_no_delete emailed_op h = refl

module _ (js : JsRuntime) (input : ApplyInboundEntityInput) (link : SyncLinkRow) (qbo : Json)
    (t : TransactionRow) (db : Database) (current : IsCurrentChange js input link t qbo) where
  pub if_current-runs : (rest : Tx InboundResult) → if_current js input link t qbo rest db ≡ rest db
  unfolding handle_conflict_if_any
  if_current-runs rest = elim current.free [
    | inl b ↦ rw b refl
    | inr (c, s, f) ↦ elim (Bool-cases input.bypass_conflict) [
      | inl b ↦ rw b refl
      | inr b ↦ rw (b, f, s) refl
    ]
  ]

  pub operation-void :
      (handlers : Handlers)
      → is_void input.operation ≡ true
      → is_voided t.status ≡ false
      → apply_operation js input link qbo handlers t db ≡ handlers.voided t db
  unfolding apply_operation
  operation-void handlers o v =
      rw (void_no_delete input.operation o, o, v) (if_current-runs (handlers.voided t))

  pub operation-delete :
      (handlers : Handlers)
      → is_delete input.operation ≡ true
      → apply_operation js input link qbo handlers t db ≡ handlers.deleted t db
  unfolding apply_operation
  operation-delete handlers o = rw o (if_current-runs (handlers.deleted t))

  unheld : (input.bypass_conflict ≡ true) ⊎ (is_in_conflict link ≡ false)
  unheld = elim current.free [ inl b ↦ inl b | inr (c, s, f) ↦ inr c ]

  pub apply_inbound_entity-runs :
      IsLinkedChange input db link t qbo
      → apply_inbound_entity js input db
        ≡ apply_operation js input link qbo (handlers_of js input qbo input.entity_type) t db
  apply_inbound_entity-runs change =
      apply_inbound_entity-linked js input link qbo t db change
      ∙ apply_row-runs js input link qbo (handlers_of js input qbo input.entity_type) t db
          current.live unheld

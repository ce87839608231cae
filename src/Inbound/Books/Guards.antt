-- ===== src/Inbound/Books/Guards.antt =====
-- The guards of the inbound apply keep the books balanced.
use Prim.Native.String.{String}
use invoicing_platform.Prelude.{
  Bool, true, false, not, ◌&&◌, is_some, if◌then◌else◌, Option, none, some,
}
use invoicing_platform.Database.{RowId, SyncOutcome, SyncLinkRow, TransactionRow, Tx, ◌>>=◌}
use invoicing_platform.Database.Keeps.{Keeps, Keeps-bind, Keeps-if, keeps_rules}
use invoicing_platform.Ledger.Balance.{IsBalanced}
use invoicing_platform.Ledger.Statements.{statement_rules}
use invoicing_platform.Payments.{is_voided}
use invoicing_platform.Inbound.Body.{Json, JsRuntime}
use invoicing_platform.Inbound.Guards.{
  InboundAction, InboundResult, ApplyInboundEntityInput, Handlers, apply_operation, apply_row,
  apply_found, is_delete, is_void, is_link_stale, audit, leave, skip, unless_done, raise_conflict,
  handle_conflict_if_any, handle_already_conflict_hold, if_current, finish,
}

pub audit-Keeps :
    (input : ApplyInboundEntityInput) (id : Option RowId) (action : String) (o : SyncOutcome)
    → Keeps IsBalanced (audit input id action o)
unfolding audit
audit-Keeps input id action o = search statement_rules

pub leave-Keeps :
    (input : ApplyInboundEntityInput) (audited : Option RowId) (action : String) (o : SyncOutcome)
    (id : Option RowId) (result : InboundAction) (reason : String)
    → Keeps IsBalanced (leave input audited action o id result reason)
unfolding leave
leave-Keeps input audited action o id result reason = search (keeps_rules, audit-Keeps)

pub raise_conflict-Keeps :
    (input : ApplyInboundEntityInput) (id : RowId) (reason : String)
    → Keeps IsBalanced (raise_conflict input id reason)
unfolding raise_conflict
raise_conflict-Keeps input id reason = search (keeps_rules, statement_rules, leave-Keeps)

pub unless_done-Keeps :
    (o : Option InboundResult) (rest : Tx InboundResult)
    → Keeps IsBalanced rest
    → Keeps IsBalanced (unless_done o rest)
unless_done-Keeps none rest k = k
unless_done-Keeps (some r) rest k = search keeps_rules

module _ (js : JsRuntime) (input : ApplyInboundEntityInput) where
  pub handle_conflict_if_any-Keeps :
      (link : SyncLinkRow) (existing : TransactionRow) (qbo : Json)
      → Keeps IsBalanced (handle_conflict_if_any js input link existing qbo)
  unfolding handle_conflict_if_any
  handle_conflict_if_any-Keeps link existing qbo =
      search (keeps_rules, raise_conflict-Keeps) depth 12

  pub handle_already_conflict_hold-Keeps :
      (link : SyncLinkRow) (existing : TransactionRow) (qbo : Json)
      → Keeps IsBalanced (handle_already_conflict_hold js input link existing qbo)
  unfolding handle_already_conflict_hold
  handle_already_conflict_hold-Keeps link existing qbo = search (keeps_rules, leave-Keeps) depth 12

  pub if_current-Keeps :
      (link : SyncLinkRow) (existing : TransactionRow) (qbo : Json) (rest : Tx InboundResult)
      → Keeps IsBalanced rest
      → Keeps IsBalanced (if_current js input link existing qbo rest)
  if_current-Keeps link existing qbo rest k =
      Keeps-if (not input.bypass_conflict && is_link_stale js link qbo)
        (skip input (some existing.id) "stale_ignored")
        (handle_conflict_if_any js input link existing qbo >>= (λ c. unless_done c rest))
        (search leave-Keeps)
        (Keeps-bind (handle_conflict_if_any js input link existing qbo) _
          (handle_conflict_if_any-Keeps link existing qbo) (λ c. unless_done-Keeps c rest k))

  pub finish-Keeps :
      (existing : TransactionRow) (qbo : Json) (action : String) (result : InboundAction)
      → Keeps IsBalanced (finish js input existing qbo action result)
  unfolding finish
  finish-Keeps existing qbo action result =
      search (keeps_rules, statement_rules, audit-Keeps) depth 12

pub skip_or-Keeps :
    (b : Bool) (input : ApplyInboundEntityInput) (id : Option RowId) (reason : String)
    (rest : Tx InboundResult)
    → Keeps IsBalanced rest
    → Keeps IsBalanced (if b then skip input id reason else rest)
skip_or-Keeps true input id reason rest k = search leave-Keeps
skip_or-Keeps false input id reason rest k = k

module _ (js : JsRuntime) (input : ApplyInboundEntityInput) (link : SyncLinkRow) (qbo : Json)
    (handlers : Handlers) (deleted : (t : TransactionRow) → Keeps IsBalanced (handlers.deleted t))
    (voided : (t : TransactionRow) → Keeps IsBalanced (handlers.voided t))
    (patched : (t : TransactionRow) → Keeps IsBalanced (handlers.patched t)) where
  apply_operation-Keeps :
      (t : TransactionRow) → Keeps IsBalanced (apply_operation js input link qbo handlers t)
  unfolding apply_operation
  apply_operation-Keeps t =
      Keeps-if (is_delete input.operation) _ _
        (if_current-Keeps js input link t qbo (handlers.deleted t) (deleted t))
        (Keeps-if (is_void input.operation) _ _
          (skip_or-Keeps (is_voided t.status) input (some t.id) "already_void" _
            (if_current-Keeps js input link t qbo (handlers.voided t) (voided t)))
          (skip_or-Keeps (is_voided t.status) input (some t.id) "local_already_void_no_unvoid" _
            (if_current-Keeps js input link t qbo (handlers.patched t) (patched t))))

  apply_row-Keeps : (t : TransactionRow) → Keeps IsBalanced (apply_row js input link qbo handlers t)
  unfolding apply_row
  apply_row-Keeps t = skip_or-Keeps (is_some t.deleted_at) input (some t.id) "already_deleted" _ (
      Keeps-bind (handle_already_conflict_hold js input link t qbo) _
        (handle_already_conflict_hold-Keeps js input link t qbo)
        (λ held.
          unless_done-Keeps held (apply_operation js input link qbo handlers t)
            (apply_operation-Keeps t)))

  pub apply_found-Keeps :
      (o : Option TransactionRow) → Keeps IsBalanced (apply_found js input link qbo handlers o)
  apply_found-Keeps none = search leave-Keeps
  apply_found-Keeps (some t) = apply_row-Keeps t
